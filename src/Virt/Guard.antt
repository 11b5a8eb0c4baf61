-- ===== src/Virt/Guard.antt =====
-- `reject_destructive_path` of rust/crates/hbird-virt/src/lib.rs, the guard of `remote_rm_rf`.
use hummingbird_k8s.Base.{
  ℕ, zero, suc, Bool, true, false, not, List, [], ◌∷◌, ◌++◌, ◌≡◌, refl, ap, ◌∙◌, arith, ◌==◌,
  Result, ok, err, if◌then◌else◌, is_empty, any,
}
use hummingbird_k8s.Text.{Text, text, eq, split, trim_end_by, trim_end_matches}

-- `Error::VirshFailed` with the command `remote_rm_rf`: one constructor for each message, with the
-- path that it shows.
pub data Rejected : Type 0 where
  empty_path : Rejected
  not_absolute parent_segment system_directory : Text → Rejected

abbrev pub banned : List Text
banned =
    text "/"
    ∷ text "/bin"
    ∷ text "/boot"
    ∷ text "/dev"
    ∷ text "/etc"
    ∷ text "/home"
    ∷ text "/lib"
    ∷ text "/lib64"
    ∷ text "/proc"
    ∷ text "/root"
    ∷ text "/run"
    ∷ text "/sbin"
    ∷ text "/srv"
    ∷ text "/sys"
    ∷ text "/tmp"
    ∷ text "/usr"
    ∷ text "/var"
    ∷ []

unfoldable pub to_check : Text → Text
to_check trimmed = if is_empty trimmed then text "/" else trimmed

unfoldable pub has_parent : Text → Bool
has_parent path = any (λ seg. eq seg (text "..")) (split b'/' path)

unfoldable pub is_banned : Text → Bool
unfolding to_check
is_banned path = any (eq (to_check (trim_end_matches b'/' path))) banned

unfoldable pub reject_destructive_path : Text → Result Rejected (Unit {0})
reject_destructive_path [] = err empty_path
reject_destructive_path (c ∷ s) =
    if not (c == b'/')
    then err (not_absolute (c ∷ s))
    else if has_parent (c ∷ s)
    then err (parent_segment (c ∷ s))
    else if is_banned (c ∷ s)
    then err (system_directory (c ∷ s))
    else ok tt

-- As many slashes as the list has elements.
unfoldable pub slashes : ℕ → Text
slashes zero = []
slashes (suc n) = b'/' ∷ slashes n

trim_end_by-slashes : (n : ℕ) → trim_end_by (λ d. d == b'/') (slashes n) ≡ []
unfolding trim_end_by slashes
trim_end_by-slashes zero = refl
trim_end_by-slashes (suc n) = ground (arith, trim_end_by-slashes n)

-- Slashes at the end are dropped, whatever stands before them.
trim_end_by-append :
    (s : Text) (n : ℕ)
    → trim_end_by (λ d. d == b'/') (s ++ slashes n) ≡ trim_end_by (λ d. d == b'/') s
unfolding trim_end_by
trim_end_by-append [] n = trim_end_by-slashes n
trim_end_by-append (c ∷ s) n = ground (arith, trim_end_by-append s n)

is_banned-append : (s : Text) (n : ℕ) → is_banned (s ++ slashes n) ≡ is_banned s
unfolding is_banned trim_end_matches
is_banned-append s n = ap (λ t. any (eq (to_check t)) banned) (trim_end_by-append s n)

abbrev pub Refuses : Result Rejected (Unit {0}) → Type 0
Refuses (ok a) = ⊥
Refuses (err e) = Unit

-- A path on the list of system directories is refused with any number of slashes behind it.
pub reject_destructive_path-banned :
    (c : ℕ) (s : Text) (n : ℕ)
    → is_banned (c ∷ s) ≡ true
    → Refuses (reject_destructive_path ((c ∷ s) ++ slashes n))
unfolding reject_destructive_path
reject_destructive_path-banned c s n h =
    go (not (c == b'/')) (has_parent ((c ∷ s) ++ slashes n)) (is_banned ((c ∷ s) ++ slashes n))
      (is_banned-append (c ∷ s) n ∙ h)
  where
    go :
        (a b d : Bool)
        → d ≡ true
        → Refuses (
            if a
            then err (not_absolute ((c ∷ s) ++ slashes n))
            else if b
            then err (parent_segment ((c ∷ s) ++ slashes n))
            else if d
            then err (system_directory ((c ∷ s) ++ slashes n))
            else ok tt)
    go true b d e = tt
    go false true d e = tt
    go false false true e = tt
    go false false false e = absurd cc

trim_end_by-kept :
    (s : Text) (c : ℕ)
    → (c == b'/') ≡ false
    → trim_end_by (λ d. d == b'/') (s ++ c ∷ []) ≡ s ++ c ∷ []
unfolding trim_end_by
trim_end_by-kept [] c h = ground arith
trim_end_by-kept (d ∷ []) c h = ground (arith, trim_end_by-kept [] c h)
trim_end_by-kept (d ∷ e ∷ s) c h = ground (arith, trim_end_by-kept (e ∷ s) c h)

doubled-is_banned :
    (s : Text) (c : ℕ) → (c == b'/') ≡ false → is_banned (b'/' ∷ b'/' ∷ (s ++ c ∷ [])) ≡ false
unfolding is_banned trim_end_matches to_check eq text
doubled-is_banned s c h =
    ap (λ t. any (eq (if is_empty t then text "/" else t)) banned)
      (trim_end_by-kept (b'/' ∷ b'/' ∷ s) c h)

-- A path that begins with two slashes and does not end in one is accepted, if it has no segment
-- `..`: a system directory after two slashes is not recognized.
pub reject_destructive_path-doubled :
    (s : Text) (c : ℕ)
    → (c == b'/') ≡ false
    → has_parent (b'/' ∷ b'/' ∷ (s ++ c ∷ [])) ≡ false
    → reject_destructive_path (b'/' ∷ b'/' ∷ (s ++ c ∷ [])) ≡ ok tt
unfolding reject_destructive_path
reject_destructive_path-doubled s c h p = rw p (rw (doubled-is_banned s c h) refl)
