-- ===== src/Preflight/Window.antt =====
-- The window of supported versions in rust/crates/hbird-cli/src/commands/preflight.rs.
use hummingbird_k8s.Base.{
  ℕ, Bool, true, false, List, [], ◌∷◌, ◌≡◌, refl, sym, ◌∙◌, arith, Option, none, some,
  if◌then◌else◌, All, any, ◌⊎◌, ◌↔◌,
}
use hummingbird_k8s.Text.{Text, text, eq, join}
use hummingbird_k8s.Text.Equality.{le_total, le_trans, eq_iff}
use hummingbird_k8s.Preflight.Matrix.{MatrixRow, lookup_row}
use hummingbird_k8s.Preflight.Versions.{
  parse_minor_pair, not_greater, precedes, least, lowest_supported_minor, is_below_window, both_lt,
}
use hummingbird_k8s.Preflight.{
  Pins, Verdict, supported, matrix_stale, mismatch, classify, classify_row, lowest_or_blank,
}

not_greater_total :
    (p q : Option (ℕ × ℕ)) (a b : Text) → not_greater p q a b ≡ false → not_greater q p b a ≡ true
not_greater_total (some (m, n)) (some (m', n')) a b h = ground arith
not_greater_total (some p) none a b h = ground arith
not_greater_total none (some q) a b h = refl
not_greater_total none none a b h = ground (arith, le_total a b)

not_greater_trans :
    (p q r : Option (ℕ × ℕ)) (a b c : Text)
    → not_greater p q a b ≡ true
    → not_greater q r b c ≡ true
    → not_greater p r a c ≡ true
not_greater_trans (some (m, n)) (some (m', n')) (some (m'', n'')) a b c h k = ground arith
not_greater_trans (some p) q none a b c h k = refl
not_greater_trans (some p) none (some r) a b c h k = ground arith
not_greater_trans none (some q) r a b c h k = ground arith
not_greater_trans none none (some r) a b c h k = ground arith
not_greater_trans none none none a b c h k = le_trans a b c h k

precedes_trans : (a b c : Text) → precedes a b ≡ true → precedes b c ≡ true → precedes a c ≡ true
unfolding precedes
precedes_trans a b c =
    not_greater_trans (parse_minor_pair a) (parse_minor_pair b) (parse_minor_pair c) a b c

precedes_total : (a b : Text) → precedes a b ≡ false → precedes b a ≡ true
unfolding precedes
precedes_total a b = not_greater_total (parse_minor_pair a) (parse_minor_pair b) a b

abbrev pub IsLeast : Text → List Text → Type 0
IsLeast a ms = All (λ m. precedes a m ≡ true) ms

IsLeast-trans : (a b : Text) (ms : List Text) → precedes a b ≡ true → IsLeast b ms → IsLeast a ms
IsLeast-trans a b [] h l = tt
IsLeast-trans a b (m ∷ ms) h (k, l) = (precedes_trans a b m h k, IsLeast-trans a b ms h l)

precedes_refl : (a : Text) → precedes a a ≡ true
precedes_refl a = go (precedes a a) refl
  where
    go : (b : Bool) → precedes a a ≡ b → b ≡ true
    go true e = refl
    go false e = sym e ∙ precedes_total a a e

least-IsLeast : (a : Text) (ms : List Text) → IsLeast (least a ms) (a ∷ ms)
unfolding least
least-IsLeast a [] = (precedes_refl a, tt)
least-IsLeast a (b ∷ ms) = go (precedes a b) refl (least-IsLeast a ms) (least-IsLeast b ms)
  where
    go :
        (t : Bool)
        → precedes a b ≡ t
        → IsLeast (least a ms) (a ∷ ms)
        → IsLeast (least b ms) (b ∷ ms)
        → IsLeast (if t then least a ms else least b ms) (a ∷ b ∷ ms)
    go true e (la, l) _ = (la, (precedes_trans (least a ms) a b la e, l))
    go false e _ (lb, l) = (precedes_trans (least b ms) b a lb (precedes_total a b e), (lb, l))

-- Every entry that is a version is above the given one.
abbrev pub AllAbove : Text → List Text → Type 0
AllAbove k ms = All (λ m. (p : ℕ × ℕ) → parse_minor_pair m ≡ some p → is_below_window k m ≡ true) ms

below-least :
    (k l m : Text) (p : ℕ × ℕ)
    → is_below_window k l ≡ true
    → precedes l m ≡ true
    → parse_minor_pair m ≡ some p
    → is_below_window k m ≡ true
unfolding is_below_window precedes
below-least k l m p b h e = go (parse_minor_pair k) (parse_minor_pair l) (parse_minor_pair m) b h e
  where
    go :
        (x y z : Option (ℕ × ℕ))
        → both_lt x y ≡ true
        → not_greater y z l m ≡ true
        → z ≡ some p
        → both_lt x z ≡ true
    go (some (a, a')) (some (b, b')) (some (c, c')) h k e = ground arith
    go none y z h k e = ground arith
    go (some x) none z h k e = ground arith
    go (some x) (some y) none h k e = absurd cc

least-AllAbove :
    (k l : Text) (ms : List Text) → is_below_window k l ≡ true → IsLeast l ms → AllAbove k ms
least-AllAbove k l [] b h = tt
least-AllAbove k l (m ∷ ms) b (h, hs) =
    (λ p e. below-least k l m p b h e, least-AllAbove k l ms b hs)

lowest-AllAbove :
    (k : Text) (ms : List Text)
    → is_below_window k (lowest_or_blank (lowest_supported_minor ms)) ≡ true
    → AllAbove k ms
unfolding lowest_supported_minor lowest_or_blank
lowest-AllAbove k [] h = tt
lowest-AllAbove k (m ∷ ms) h = least-AllAbove k _ (m ∷ ms) h (least-IsLeast m ms)

abbrev pub IsListed : Text → List Text → Type 0
IsListed k [] = ⊥
IsListed k (m ∷ ms) = (m ≡ k) ⊎ IsListed k ms

true-ne-false : {b : Bool} → b ≡ true → b ≡ false → ⊥
true-ne-false h e = ground arith

any_iff-IsListed : (k : Text) (ms : List Text) → (any (λ m. eq m k) ms ≡ true) ↔ IsListed k ms
any_iff-IsListed k [] = (λ h. absurd cc, λ h. absurd h)
any_iff-IsListed k (m ∷ ms) = ground (arith, any_iff-IsListed k ms, eq_iff m k)

-- What a verdict tells of the row.
abbrev pub TellsRow : Pins → MatrixRow → Verdict → Type 0
TellsRow pins row (supported w) = IsListed pins.k8s_minor row.k8s_minors
TellsRow pins row matrix_stale = ⊥
TellsRow pins row (mismatch w l below url) =
    ¬ IsListed pins.k8s_minor row.k8s_minors
    × (l ≡ lowest_or_blank (lowest_supported_minor row.k8s_minors))
    × (below ≡ true → AllAbove pins.k8s_minor row.k8s_minors)

abbrev pub Tells : Pins → Option MatrixRow → Verdict → Type 0
Tells pins none v = v ≡ matrix_stale
Tells pins (some row) v = TellsRow pins row v

-- The verdict on two pins, by the row of the table with the pinned minor of Cilium. Without a row the
-- table is stale. Otherwise the verdict is `supported` only if the row lists the minor of Kubernetes,
-- and a mismatch only if it does not; a mismatch names the row's lowest minor, and if it says that the
-- minor of Kubernetes is below the window, then this minor is below every entry of the row that is a
-- version.
pub classify-Tells : (pins : Pins) → Tells pins (lookup_row pins.cilium_minor) (classify pins)
unfolding classify
classify-Tells pins = of_row (lookup_row pins.cilium_minor)
  where
    of_test :
        (row : MatrixRow) (b : Bool)
        → any (λ m. eq m pins.k8s_minor) row.k8s_minors ≡ b
        → TellsRow pins row (
            if b
            then supported (join (text " ") row.k8s_minors)
            else mismatch
                (join (text " ") row.k8s_minors)
                (lowest_or_blank (lowest_supported_minor row.k8s_minors))
                (is_below_window pins.k8s_minor
                  (lowest_or_blank (lowest_supported_minor row.k8s_minors)))
                row.source_url)
    of_test row true e = (any_iff-IsListed _ _).0 e
    of_test row false e =
        (λ i. true-ne-false ((any_iff-IsListed _ _).1 i) e, refl, lowest-AllAbove _ _)

    of_row : (o : Option MatrixRow) → Tells pins o (classify_row pins.k8s_minor o)
    of_row none = unfold classify_row in refl
    of_row (some row) = unfold classify_row in of_test row _ refl
