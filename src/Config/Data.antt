-- ===== src/Config/Data.antt =====
-- rust/crates/hbird-config/src/error.rs and the data of parser.rs: errors, warnings, the values
-- of an assignment, and the map from keys to assignments. The variant `Error::Io` belongs to the
-- function that reads the file, which is not modelled.
pub mod Map
use hummingbird_k8s.Base.{ℕ, List, Option, none, some, Result, ok, err, [], ◌∷◌, if◌then◌else◌}
use hummingbird_k8s.Text.{Text, eq}

pub data Error : Type 0 where
  unrecognized_line : ℕ → Text → Error
  unterminated_array : Text → ℕ → Error
  unterminated_quote : ℕ → Text → Error
  missing_required : Text → Text → Error
  invalid_integer : Text → ℕ → Text → Error
  invalid_bool : Text → ℕ → Text → Error
  trailing_content : ℕ → Text → Error
  type_mismatch : Text → Text → Text → ℕ → Error

-- `Warning::UnknownKey`, the only variant.
pub record Warning : Type 0 where
  pub key : Text
  pub line_no : ℕ

pub data Value : Type 0 where
  scalar : Text → Value
  array : List Text → Value

-- `HashMap<String, (usize, Value)>`: the line of the assignment, and its value.
abbrev pub RawMap : Type 0
RawMap = List (Text × (ℕ × Value))

-- `HashMap::insert`: a later assignment overwrites an earlier one.
unfoldable pub insert : Text → ℕ × Value → RawMap → RawMap
insert key value [] = (key, value) ∷ []
insert key value ((other, old) ∷ raw) =
    let rest = insert key value raw in
    if eq other key then (other, value) ∷ raw else (other, old) ∷ rest

unfoldable pub lookup : Text → RawMap → Option (ℕ × Value)
lookup k [] = none
lookup k ((j, v) ∷ m) = if eq j k then some v else lookup k m

-- The map that `HashMap::remove` leaves.
unfoldable pub remove : Text → RawMap → RawMap
remove k [] = []
remove k ((j, v) ∷ m) = let rest = remove k m in if eq j k then rest else (j, v) ∷ rest
