-- ===== src/Deploy/Distinct.antt =====
-- Texts that are told apart by a key, in rust/crates/hbird-cli/src/commands/deploy_cluster.rs: MAC
-- addresses by their lower case, network addresses without their prefix length.
use hummingbird_k8s.Base.{false, List, [], ◌∷◌, ◌++◌, ◌≡◌, arith, All, All-append}
use hummingbird_k8s.Text.{Text, eq}
use hummingbird_k8s.Text.Equality.{eq_iff}

abbrev pub DiffersBy : (Text → Text) → Text → Text → Type 0
DiffersBy key m n = eq (key n) (key m) ≡ false

abbrev pub DistinctBy : (Text → Text) → List Text → Type 0
DistinctBy key [] = Unit
DistinctBy key (m ∷ ms) = All (DiffersBy key m) ms × DistinctBy key ms

pub eq-false_comm : (s t : Text) → eq s t ≡ false → eq t s ≡ false
eq-false_comm s t h = ground (arith, eq_iff s t, eq_iff t s)

-- The heads of the later texts' proofs.
heads :
    (key : Text → Text) (m : Text) (ms ys : List Text)
    → All (λ y. All (DiffersBy key y) (m ∷ ms)) ys
    → All (DiffersBy key m) ys
heads key m ms [] h = tt
heads key m ms (y ∷ ys) ((d, _), h) = (eq-false_comm (key m) (key y) d, heads key m ms ys h)

tails :
    (key : Text → Text) (m : Text) (ms ys : List Text)
    → All (λ y. All (DiffersBy key y) (m ∷ ms)) ys
    → All (λ y. All (DiffersBy key y) ms) ys
tails key m ms [] h = tt
tails key m ms (y ∷ ys) ((_, d), h) = (d, tails key m ms ys h)

pub DistinctBy-append :
    (key : Text → Text) (xs ys : List Text)
    → DistinctBy key xs
    → DistinctBy key ys
    → All (λ y. All (DiffersBy key y) xs) ys
    → DistinctBy key (xs ++ ys)
DistinctBy-append key [] ys dx dy h = dy
DistinctBy-append key (x ∷ xs) ys (a, dx) dy h = (
  All-append _ xs ys a (heads key x xs ys h),
  DistinctBy-append key xs ys dx dy (tails key x xs ys h),
)
