-- ===== src/Preflight.antt =====
-- rust/crates/hbird-cli/src/commands/preflight.rs: whether the pinned versions of Cilium and
-- Kubernetes go together. The two files are what `read_file` answers; a path is a text, and the
-- texts of the errors are constructors.
pub mod Matrix
pub mod Versions
pub mod Window
use hummingbird_k8s.Base.{
  ◌==◌, ◌||◌, ℕ, Bool, true, false, List, [], ◌∷◌, ◌++◌, Option, none, some, Result, ok, err, ◌>>=◌,
  ok_or, any, is_empty, if◌then◌else◌,
}
use hummingbird_k8s.Text.{Text, text, eq, join}
use hummingbird_k8s.Preflight.Matrix.{MatrixRow, lookup_row}
use hummingbird_k8s.Preflight.Versions.{
  lowest_supported_minor, is_below_window, normalize_k8s_minor, cilium_minor_of, extract_cilium_pin,
  extract_k8s_pin,
}

pub record CiliumArgs : Type 0 where
  pub cilium : Option Text
  pub k8s : Option Text
  pub strict : Bool
  pub repo_root : Option Text
  pub dry_run : Bool

pub record Pins : Type 0 where
  pub cilium_version : Text
  pub cilium_minor : Text
  pub k8s_minor : Text
  pub cilium_source : Text
  pub k8s_source : Text

pub data PinError : Type 0 where
  unreadable_cilium : Text → PinError
  no_cilium : PinError
  unreadable_k8s : Text → PinError
  no_k8s : PinError

pub data Verdict : Type 0 where
  supported : Text → Verdict
  matrix_stale : Verdict
  mismatch : Text → Text → Bool → Text → Verdict

abbrev pub k8s_init_rel : Text
k8s_init_rel = text "containers/k8s/k8s-init.sh"

abbrev pub containerfile_rel : Text
containerfile_rel = text "containers/k8s/Containerfile"

-- An override counts unless it is empty.
unfoldable pub override : Option Text → Option Text
override none = none
override (some s) = if is_empty s then none else some s

-- The value and where it is from.
unfoldable pub pin_of :
    Option Text
    → (Text → Text)
    → Text
    → Text
    → Option Text
    → (Text → Option Text)
    → PinError
    → PinError
    → Result PinError (Text × Text)
pin_of (some v) normal flag path content extract unreadable missing = ok (normal v, flag)
pin_of none normal flag path none extract unreadable missing = err unreadable
pin_of none normal flag path (some c) extract unreadable missing =
    ok_or (extract c) missing >>= λ v. ok (v, path)

unfoldable pub ends_with_slash : Text → Bool
ends_with_slash [] = false
ends_with_slash (c ∷ []) = c == b'/'
ends_with_slash (c ∷ d ∷ s) = ends_with_slash (d ∷ s)

-- `Path::join` of a relative path: one separator between the two, and none behind an empty root.
unfoldable pub join_path : Text → Text → Text
join_path root rel =
    if is_empty root || ends_with_slash root then root ++ rel else root ++ b'/' ∷ rel

-- `read_file` by the path; a file that cannot be read has no content.
unfoldable pub resolve_pins : CiliumArgs → Text → (Text → Option Text) → Result PinError Pins
resolve_pins args root read_file =
    let k8s_init = join_path root k8s_init_rel in
    let containerfile = join_path root containerfile_rel in
    pin_of (override args.cilium) (λ v. v) (text "--cilium") k8s_init (read_file k8s_init)
      extract_cilium_pin (unreadable_cilium k8s_init) no_cilium
    >>= λ c.
        pin_of (override args.k8s) normalize_k8s_minor (text "--k8s") containerfile
          (read_file containerfile) extract_k8s_pin (unreadable_k8s containerfile) no_k8s
        >>= λ k. ok (record {
          cilium_version = c.0;
          cilium_minor = cilium_minor_of c.0;
          k8s_minor = k.0;
          cilium_source = c.1;
          k8s_source = k.1;
        })

unfoldable pub lowest_or_blank : Option Text → Text
lowest_or_blank none = []
lowest_or_blank (some s) = s

unfoldable pub classify_row : Text → Option MatrixRow → Verdict
classify_row k none = matrix_stale
classify_row k (some row) =
    let window = join (text " ") row.k8s_minors in
    let lowest = lowest_or_blank (lowest_supported_minor row.k8s_minors) in
    if any (λ m. eq m k) row.k8s_minors
    then supported window
    else mismatch window lowest (is_below_window k lowest) row.source_url

unfoldable pub classify : Pins → Verdict
classify pins = classify_row pins.k8s_minor (lookup_row pins.cilium_minor)

unfoldable pub verdict_exit_code : Verdict → Bool → ℕ
verdict_exit_code (supported w) strict = 0
verdict_exit_code matrix_stale strict = if strict then 1 else 0
verdict_exit_code (mismatch w l b u) strict = if strict then 1 else 0
