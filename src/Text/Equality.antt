-- ===== src/Text/Equality.antt =====
-- Equality and order of texts.
use hummingbird_k8s.Base.{true, [], ◌∷◌, ◌≡◌, ◌↔◌, ◌⊎◌, inl, inr, refl, arith}
use hummingbird_k8s.Text.{Text, eq, le}

pub eq→≡ : (s t : Text) → eq s t ≡ true → s ≡ t
unfolding eq
eq→≡ (c ∷ s) (d ∷ t) h = ground (arith, eq→≡ s t)
eq→≡ _ _ h = ground arith

pub eq_refl : (s : Text) → eq s s ≡ true
unfolding eq
eq_refl [] = refl
eq_refl (c ∷ s) = ground (arith, eq_refl s)

pub eq_iff : (s t : Text) → (eq s t ≡ true) ↔ (s ≡ t)
eq_iff s t = (eq→≡ s t, λ e. rw e (eq_refl t))

pub le_total : (s t : Text) → (le s t ≡ true) ⊎ (le t s ≡ true)
unfolding le
le_total [] t = inl refl
le_total (c ∷ s) [] = inr refl
le_total (c ∷ s) (d ∷ t) = ground (arith, le_total s t)

pub le_antisymm : (s t : Text) → le s t ≡ true → le t s ≡ true → s ≡ t
unfolding le
le_antisymm [] [] h k = refl
le_antisymm [] (d ∷ t) h k = ground arith
le_antisymm (c ∷ s) [] h k = ground arith
le_antisymm (c ∷ s) (d ∷ t) h k = ground (arith, le_antisymm s t)

pub le_trans : (s t u : Text) → le s t ≡ true → le t u ≡ true → le s u ≡ true
unfolding le
le_trans [] t u h k = refl
le_trans (c ∷ s) (d ∷ t) (e ∷ u) h k = ground (arith, le_trans s t u)
le_trans _ _ _ h k = ground arith
