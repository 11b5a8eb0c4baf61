-- ===== src/Deploy/Cidr.antt =====
-- Addresses and ranges in rust/crates/hbird-cli/src/commands/deploy_cluster.rs. A `u32` is a number
-- below 2 ^ 32; `out << 8` and the mask drop the bits above.
use Prim.Native.Nat.{bit_and}
use hummingbird_k8s.Base.{
  ℕ, suc, ◌+◌, ◌-◌, ◌*◌, ◌%◌, ◌^◌, ltb, leb, Bool, true, false, not, ◌&&◌, ◌||◌, List, [], ◌∷◌,
  ◌==◌, Option, none, some, if◌then◌else◌, is_empty, all, length,
}
use hummingbird_k8s.Text.{Text, len, split, split_once, is_ascii_digit}
use hummingbird_k8s.Text.Numbers.{parse_uint, u32_max}

unfoldable pub fits : Option ℕ → ℕ → Bool
fits none max = false
fits (some v) max = leb v max

abbrev pub leading_zero : Text → Bool
leading_zero [] = false
leading_zero (c ∷ s) = c == b'0'

unfoldable pub is_decimal_in_range : Text → ℕ → Bool
is_decimal_in_range s max =
    if is_empty s || (ltb 3 (len s) || not (all is_ascii_digit s))
    then false
    else if ltb 1 (len s) && leading_zero s
    then false
    else fits (parse_uint u32_max s) max

unfoldable pub is_octet : Text → Bool
is_octet o = is_decimal_in_range o 255

abbrev pub cidr_parts : Option (Text × Text) → Bool
cidr_parts none = false
cidr_parts (some (addr, prefix)) =
    let octets = split b'.' addr in
    if not (length octets == 4) || not (all is_octet octets)
    then false
    else is_decimal_in_range prefix 32

unfoldable pub is_valid_cidr : Text → Bool
is_valid_cidr s = cidr_parts (split_once b'/' s)

-- The loop of `to_u32`, with the number of parts so far.
unfoldable pub shift_in : ℕ → ℕ → List Text → Option ℕ
shift_in out n [] = if n == 4 then some out else none
shift_in out n (part ∷ parts) = elim (parse_uint 255 part) [
  | none ↦ none
  | some v ↦ shift_in (out * 256 % 4294967296 + v) (suc n) parts
]

unfoldable pub to_u32 : Text → Option ℕ
to_u32 a = shift_in 0 0 (split b'.' a)

abbrev pub masked : Option ℕ → Option ℕ → Option ℕ → Bool
masked (some a) (some c) (some p) =
    let mask = 4294967295 * 2 ^ (32 - p) % 4294967296 in
    if p == 0 then true else if ltb 32 p then false else bit_and a mask == bit_and c mask
masked _ _ _ = false

abbrev pub in_parts : Text → Option (Text × Text) → Bool
in_parts addr none = false
in_parts addr (some (base, prefix)) = masked (to_u32 addr) (to_u32 base) (parse_uint u32_max prefix)

unfoldable pub ip_in_cidr : Text → Text → Bool
ip_in_cidr addr cidr = in_parts addr (split_once b'/' cidr)
