-- ===== src/Config/Data/Map.antt =====
-- Laws of the map of assignments.
use hummingbird_k8s.Base.{
  ℕ, Bool, true, false, List, [], ◌∷◌, ◌≡◌, refl, none, some, if◌then◌else◌, arith,
}
use hummingbird_k8s.Text.{Text, eq}
use hummingbird_k8s.Text.Equality.{eq_iff}
use hummingbird_k8s.Config.Data.{Value, RawMap, insert, lookup, remove}

-- A key that was assigned reads as its new value, and every other key as before.
pub lookup-insert :
    (key asked : Text) (value : ℕ × Value) (raw : RawMap)
    → lookup asked (insert key value raw) ≡ (if eq key asked then some value else lookup asked raw)
unfolding insert lookup
lookup-insert key asked value [] = refl
lookup-insert key asked value ((other, old) ∷ raw) = ground (
  arith,
  lookup-insert key asked value raw,
  eq_iff other asked,
  eq_iff key asked,
  eq_iff other key,
)

pub lookup-remove :
    (k j : Text) (m : RawMap) → lookup j (remove k m) ≡ (if eq k j then none else lookup j m)
unfolding lookup remove
lookup-remove k j [] = ground arith
lookup-remove k j ((i, w) ∷ m) =
    ground (arith, eq_iff k j, eq_iff i k, eq_iff i j, lookup-remove k j m)

-- The map after `remove` of each key in turn.
unfoldable pub remove_all : List Text → RawMap → RawMap
remove_all [] m = m
remove_all (k ∷ ks) m = remove_all ks (remove k m)

unfoldable pub is_one_of : List Text → Text → Bool
is_one_of [] j = false
is_one_of (k ∷ ks) j = if eq k j then true else is_one_of ks j

pub lookup-remove_all :
    (ks : List Text) (j : Text) (m : RawMap)
    → lookup j (remove_all ks m) ≡ (if is_one_of ks j then none else lookup j m)
unfolding remove_all is_one_of
lookup-remove_all [] j m = refl
lookup-remove_all (k ∷ ks) j m =
    ground (arith, lookup-remove_all ks j (remove k m), lookup-remove k j m)
