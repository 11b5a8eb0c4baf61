-- ===== src/Config/Build/Ordering.antt =====
-- The sort of the warnings in `build_config` of rust/crates/hbird-config/src/parser.rs.
use mathlib.Core.List.{Perm, Permᴰ}
use mathlib.Core.Logic.{∥∥₁_elim}
use mathlib.Core.List.Perm
use mathlib.Core.Path.{ap₂}
use native.Mathlib.Nat.{ℕ_set}
use hummingbird_k8s.Base.{
  true, List, [], ◌∷◌, ◌≡◌, ◌⊎◌, inl, inr, refl, ◌∙◌, arith, Bool-cases, map,
}
use hummingbird_k8s.Text.Equality.{le_total, le_antisymm, le_trans}
use hummingbird_k8s.Config.Data.{Warning, RawMap}
use hummingbird_k8s.Config.Build.Warnings.{
  to_warning, not_after, insert_sorted, sort_warnings, unknown_warnings,
}

not_after_total : (a b : Warning) → (not_after a b ≡ true) ⊎ (not_after b a ≡ true)
unfolding not_after
not_after_total a b = ground (arith, le_total a.key b.key)

not_after_antisymm : (a b : Warning) → not_after a b ≡ true → not_after b a ≡ true → a ≡ b
unfolding not_after
not_after_antisymm a b h k = ground (arith, le_antisymm a.key b.key)

not_after_trans :
    (a b c : Warning) → not_after a b ≡ true → not_after b c ≡ true → not_after a c ≡ true
unfolding not_after
not_after_trans a b c h k = ground (arith, le_trans a.key b.key c.key)

insert_sorted_comm :
    (a b : Warning) (ws : List Warning)
    → insert_sorted a (insert_sorted b ws) ≡ insert_sorted b (insert_sorted a ws)
unfolding insert_sorted
insert_sorted_comm a b [] = ground (arith, not_after_total a b, not_after_antisymm a b)
insert_sorted_comm a b (x ∷ ws) = ground (
  arith,
  not_after_total a b,
  not_after_antisymm a b,
  not_after_trans a b x,
  not_after_trans b a x,
  insert_sorted_comm a b ws,
)

unknown_warnings-Permᴰ : {v w : RawMap} → Permᴰ v w → unknown_warnings v ≡ unknown_warnings w
unfolding unknown_warnings
unknown_warnings-Permᴰ Permᴰ.nil = refl
unknown_warnings-Permᴰ (Permᴰ.cons e p) =
    ap₂ (λ x ws. insert_sorted (to_warning x) ws) e (unknown_warnings-Permᴰ p)
unknown_warnings-Permᴰ (Permᴰ.swap {a} {b} {l} e f) =
    insert_sorted_comm (to_warning a) (to_warning b) (sort_warnings (map to_warning l))
    ∙ ap₂
        (λ x y.
          insert_sorted (to_warning x)
            (insert_sorted (to_warning y) (sort_warnings (map to_warning l))))
        f e
unknown_warnings-Permᴰ (Permᴰ.trans p q) = unknown_warnings-Permᴰ p ∙ unknown_warnings-Permᴰ q

-- Sorted: no warning stands behind a later one.
abbrev pub IsSorted : List Warning → Type 0
IsSorted [] = Unit
IsSorted (w ∷ []) = Unit
IsSorted (w ∷ x ∷ ws) = (not_after w x ≡ true) × IsSorted (x ∷ ws)

insert_sorted-IsSorted :
    (w : Warning) (ws : List Warning) → IsSorted ws → IsSorted (insert_sorted w ws)
unfolding insert_sorted
insert_sorted-IsSorted w [] h = tt
insert_sorted-IsSorted w (x ∷ []) h = ground (arith, not_after_total w x)
insert_sorted-IsSorted w (x ∷ y ∷ ws) h =
    ground (arith, not_after_total w x, not_after_total w y, insert_sorted-IsSorted w (y ∷ ws))

sort_warnings-IsSorted : (ws : List Warning) → IsSorted (sort_warnings ws)
unfolding sort_warnings
sort_warnings-IsSorted [] = tt
sort_warnings-IsSorted (w ∷ ws) =
    insert_sorted-IsSorted w (sort_warnings ws) (sort_warnings-IsSorted ws)

insert_sorted-perm : (w : Warning) (ws : List Warning) → Perm (insert_sorted w ws) (w ∷ ws)
unfolding insert_sorted
insert_sorted-perm w [] = Perm.refl (w ∷ [])
insert_sorted-perm w (x ∷ ws) = elim (Bool-cases (not_after w x)) [
  | inl first ↦ rw first (Perm.refl (w ∷ x ∷ ws))
  | inr later ↦ rw later (Perm.trans (Perm.cons x (insert_sorted-perm w ws)) (Perm.swap w x ws))
]

sort_warnings-perm : (ws : List Warning) → Perm (sort_warnings ws) ws
unfolding sort_warnings
sort_warnings-perm [] = Perm.refl []
sort_warnings-perm (w ∷ ws) =
    Perm.trans (insert_sorted-perm w (sort_warnings ws)) (Perm.cons w (sort_warnings-perm ws))

Warnings-set : IsSet (List Warning)
Warnings-set = hlevel ℕ_set

-- The warnings are those of the entries left in the map, each as often as it stands there, sorted
-- by line and then by key; and two maps with the same entries in another order of iteration give
-- the same list of warnings.
pub unknown_warnings-perm :
    (v w : RawMap)
    → Perm v w
    → (unknown_warnings v ≡ unknown_warnings w)
      × IsSorted (unknown_warnings v)
      × Perm (unknown_warnings v) (map to_warning v)
unfolding unknown_warnings
unknown_warnings-perm v w p = (
  ∥∥₁_elim p (Warnings-set _ _) unknown_warnings-Permᴰ,
  sort_warnings-IsSorted (map to_warning v),
  sort_warnings-perm (map to_warning v),
)
