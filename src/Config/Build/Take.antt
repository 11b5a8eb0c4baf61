-- ===== src/Config/Build/Take.antt =====
-- The functions `take_*` of rust/crates/hbird-config/src/parser.rs. Each takes its key out of the
-- map, which is the state of the monad, and checks the shape of the value.
use hummingbird_k8s.Base.{
  ℕ, Bool, true, false, ◌||◌, List, [], ◌∷◌, Option, none, some, Result, ok, err, ok_or,
  if◌then◌else◌,
}
use hummingbird_k8s.Text.{Text, text, eq, to_ascii_lowercase}
use hummingbird_k8s.Text.Numbers.{parse_uint, u32_max}
use hummingbird_k8s.Config.Data.{
  Error, missing_required, invalid_integer, invalid_bool, type_mismatch, Value, scalar, array,
  RawMap, lookup, remove,
}

-- An action on `raw: &mut HashMap<…>` that may fail.
abbrev pub Taking {ℓ} : Type ℓ → Type ℓ
Taking A = RawMap → Result Error (A × RawMap)

module _ {ℓ} {A B : Type ℓ} where
  infixl 5 ◌>>=◌
  unfoldable pub ◌>>=◌ : Taking A → (A → Taking B) → Taking B
  ◌>>=◌ m f raw = elim (m raw) [ err e ↦ err e | ok (a, raw') ↦ f a raw' ]

unfoldable pub pure {ℓ} : {A : Type ℓ} → A → Taking A
pure a raw = ok (a, raw)

unfoldable pub remaining : Taking RawMap
remaining raw = ok (raw, raw)

-- `match raw.remove(key)`: what stood at the key decides, and the key is gone.
unfoldable pub take {ℓ} : {A : Type ℓ} → Text → (Option (ℕ × Value) → Result Error A) → Taking A
take key decide raw = elim (decide (lookup key raw)) [
  | err e ↦ err e
  | ok a ↦ ok (a, remove key raw)
]

-- `SHAPE_SCALAR` and `SHAPE_ARRAY`, read off the observed value.
shape : Value → Text
shape (scalar v) = text "scalar"
shape (array v) = text "array"

unfoldable pub mismatch : Text → Text → Value → ℕ → Error
unfolding shape
mismatch field expected observed line_no = type_mismatch field expected (shape observed) line_no

unfoldable pub required_scalar : Text → Text → Option (ℕ × Value) → Result Error Text
required_scalar key path none = err (missing_required key path)
required_scalar key path (some (n, scalar [])) = err (missing_required key path)
required_scalar key path (some (n, scalar (c ∷ v))) = ok (c ∷ v)
required_scalar key path (some (n, array v)) = err (mismatch key (text "scalar") (array v) n)

unfoldable pub optional_scalar : Text → Option (ℕ × Value) → Result Error (Option Text)
optional_scalar key none = ok none
optional_scalar key (some (n, scalar v)) = ok (some v)
optional_scalar key (some (n, array v)) = err (mismatch key (text "scalar") (array v) n)

unfoldable pub scalar_or_default : Text → Text → Option (ℕ × Value) → Result Error Text
scalar_or_default key default none = ok default
scalar_or_default key default (some (n, scalar [])) = ok default
scalar_or_default key default (some (n, scalar (c ∷ v))) = ok (c ∷ v)
scalar_or_default key default (some (n, array v)) = err (mismatch key (text "scalar") (array v) n)

unfoldable pub u32_or_default : Text → ℕ → Option (ℕ × Value) → Result Error ℕ
u32_or_default key default none = ok default
u32_or_default key default (some (n, scalar [])) = ok default
u32_or_default key default (some (n, scalar (c ∷ v))) =
    ok_or (parse_uint u32_max (c ∷ v)) (invalid_integer key n (c ∷ v))
u32_or_default key default (some (n, array v)) = err (mismatch key (text "scalar") (array v) n)

-- The lenient spellings, and the default for any other.
lenient_bool : Bool → Text → Bool
lenient_bool default v =
    if eq v (text "true") || eq v (text "1") || eq v (text "yes") || eq v (text "on")
    then true
    else if eq v (text "false") || eq v (text "0") || eq v (text "no") || eq v (text "off")
    then false
    else default

unfoldable pub bool_or_default : Text → Bool → Option (ℕ × Value) → Result Error Bool
unfolding lenient_bool
bool_or_default key default none = ok default
bool_or_default key default (some (n, scalar v)) = ok (lenient_bool default (to_ascii_lowercase v))
bool_or_default key default (some (n, array v)) = err (mismatch key (text "scalar") (array v) n)

unfoldable pub bool_strict_or_default : Text → Bool → Option (ℕ × Value) → Result Error Bool
bool_strict_or_default key default none = ok default
bool_strict_or_default key default (some (n, scalar v)) =
    if eq v (text "true")
    then ok true
    else if eq v (text "false")
    then ok false
    else if eq v []
    then ok default
    else err (invalid_bool key n v)
bool_strict_or_default key default (some (n, array v)) =
    err (mismatch key (text "scalar") (array v) n)

unfoldable pub optional_array : Text → Option (ℕ × Value) → Result Error (Option (List Text))
optional_array key none = ok none
optional_array key (some (n, array v)) = ok (some v)
optional_array key (some (n, scalar v)) = err (mismatch key (text "array") (scalar v) n)

unfoldable pub take_required_scalar : Text → Text → Taking Text
take_required_scalar key source_path = take key (required_scalar key source_path)

unfoldable pub take_optional_scalar : Text → Taking (Option Text)
take_optional_scalar key = take key (optional_scalar key)

unfoldable pub take_scalar_or_default : Text → Text → Taking Text
take_scalar_or_default key default = take key (scalar_or_default key default)

unfoldable pub take_u32_or_default : Text → ℕ → Taking ℕ
take_u32_or_default key default = take key (u32_or_default key default)

unfoldable pub take_bool_or_default : Text → Bool → Taking Bool
take_bool_or_default key default = take key (bool_or_default key default)

unfoldable pub take_bool_strict_or_default : Text → Bool → Taking Bool
take_bool_strict_or_default key default = take key (bool_strict_or_default key default)

unfoldable pub take_optional_array : Text → Taking (Option (List Text))
take_optional_array key = take key (optional_array key)
