-- ===== src/Deploy/Macs.antt =====
-- The MAC addresses of the primary cards in rust/crates/hbird-cli/src/commands/deploy_cluster.rs.
-- The map `seen` is an association list, to which a key that it has not is added in front.
pub mod Distinct
use hummingbird_k8s.Base.{
  ℕ, zero, suc, ◌+◌, ◌*◌, ◌/◌, ◌%◌, ltb, Bool, true, false, not, ◌&&◌, ◌||◌, List, [], ◌∷◌, ◌++◌,
  ◌==◌, Option, none, some, Result, ok, err, ◌>>=◌, ◌>>◌, if◌then◌else◌, is_empty, all, within,
  length, take, drop, get_elem?,
}
use hummingbird_k8s.Text.{Text, text, len, split, is_ascii_digit, to_ascii_lowercase}
use hummingbird_k8s.Update.Plan.{NameMap, get}
use hummingbird_k8s.Deploy.Sha256.{sha256_hex}

pub data MacError : Type 0 where
  malformed_cp_mac : Text → MacError
  malformed_worker_mac : ℕ → Text → MacError
  primary_collision : Text → Text → Text → MacError

-- `as_bytes`: the UTF-8 bytes of a character.
unfoldable pub utf8 : ℕ → List ℕ
utf8 c =
    if ltb c 0x80
    then c ∷ []
    else if ltb c 0x800
    then (0xC0 + c / 64) ∷ (0x80 + c % 64) ∷ []
    else if ltb c 0x10000
    then (0xE0 + c / 4096) ∷ (0x80 + c / 64 % 64) ∷ (0x80 + c % 64) ∷ []
    else (0xF0 + c / 262144) ∷ (0x80 + c / 4096 % 64) ∷ (0x80 + c / 64 % 64) ∷ (0x80 + c % 64) ∷ []

unfoldable pub as_bytes : Text → List ℕ
as_bytes [] = []
as_bytes (c ∷ s) = utf8 c ++ as_bytes s

-- `&h[a..a + 2]`
unfoldable pub two_at : ℕ → Text → Text
two_at a h = take 2 (drop a h)

unfoldable pub mac_of_digest : Text → Text
mac_of_digest h = text "52:54:00:" ++ (two_at 0 h ++ b':' ∷ (two_at 2 h ++ b':' ∷ two_at 4 h))

unfoldable pub derive_primary_mac : Text → Text
derive_primary_mac name = mac_of_digest (sha256_hex (as_bytes name))

unfoldable pub is_ascii_hexdigit : ℕ → Bool
is_ascii_hexdigit c = is_ascii_digit c || (within b'a' b'f' c || within b'A' b'F' c)

unfoldable pub is_hex_pair : Text → Bool
is_hex_pair p = len p == 2 && all is_ascii_hexdigit p

unfoldable pub is_valid_mac : Text → Bool
is_valid_mac s = let parts = split b':' s in length parts == 6 && all is_hex_pair parts

pub record PrimaryMacs : Type 0 where
  pub cp : Text
  pub workers : List Text

-- An operator's value unless it is missing or empty.
unfoldable pub or_derived : Option Text → Text → Text
or_derived none name = derive_primary_mac name
or_derived (some m) name = if is_empty m then derive_primary_mac name else m

unfoldable pub configured : Option (List Text) → ℕ → Option Text
configured none i = none
configured (some macs) i = get_elem? macs i

unfoldable pub check_worker_mac : ℕ → Text → Text → NameMap → Result MacError (Unit {0})
check_worker_mac i w mac seen =
    if is_valid_mac mac
    then (elim (get (to_ascii_lowercase mac) seen) [
      | none ↦ ok tt
      | some other ↦ err (primary_collision w other mac)
    ])
    else err (malformed_worker_mac i mac)

-- The loop over the workers.
unfoldable pub resolve_from :
    Option (List Text) → ℕ → NameMap → List Text → Result MacError (List Text)
resolve_from macs i seen [] = ok []
resolve_from macs i seen (w ∷ ws) =
    let mac = or_derived (configured macs i) w in
    let rest = resolve_from macs (suc i) ((to_ascii_lowercase mac, w) ∷ seen) ws in
    check_worker_mac i w mac seen >> (rest >>= λ later. ok (mac ∷ later))

unfoldable pub resolve_primary_macs :
    Text → Option Text → List Text → Option (List Text) → Result MacError PrimaryMacs
resolve_primary_macs cp_name cp_mac worker_names worker_macs =
    let cp = or_derived cp_mac cp_name in
    (if is_valid_mac cp then ok tt else err (malformed_cp_mac cp))
    >> (resolve_from worker_macs 0 ((to_ascii_lowercase cp, cp_name) ∷ []) worker_names
        >>= λ workers. ok (record { cp = cp; workers = workers }))
