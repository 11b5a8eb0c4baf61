-- ===== src/Base/Outcome.antt =====
-- Rust's `Result<A, E>` and its `?`.
use mathlib.Core.Path.{◌≡◌, refl, subst}
use mathlib.Core.Bool.{Bool, true, false}
use mathlib.Core.Option.{Option, none, some}
use hummingbird_k8s.Base.Tests.{if◌then◌else◌}

pub data Result {ℓ κ} (E : Type κ) (A : Type ℓ) : Type (ℓ ⊔ κ) where
  ok : A → Result E A
  err : E → Result E A

infixl 5 ◌>>=◌ ◌>>◌
abbrev pub ◌>>=◌ {ℓ μ κ} :
    {E : Type κ} {A : Type ℓ} {B : Type μ} → Result E A → (A → Result E B) → Result E B
err e >>= next = err e
ok x >>= next = next x

abbrev pub ◌>>◌ {ℓ κ} : {E : Type κ} {B : Type ℓ} → Result E (Unit {0}) → Result E B → Result E B
m >> k = m >>= λ _. k

-- `opt.ok_or(e)`
abbrev pub ok_or {ℓ κ} : {E : Type κ} {A : Type ℓ} → Option A → E → Result E A
ok_or none e = err e
ok_or (some a) e = ok a

-- A bind that succeeds has gone through both of its computations.
abbrev pub GoesThrough {ℓ μ κ} :
    {E : Type κ} {A : Type ℓ} {B : Type μ} → Result E A → (A → Result E B) → B → Type (ℓ ⊔ μ ⊔ κ)
GoesThrough {A = A} m next b = (x : A) × (m ≡ ok x) × (next x ≡ ok b)

pub >>=-eq-ok {ℓ μ κ} :
    {E : Type κ} {A : Type ℓ} {B : Type μ} (m : Result E A) (next : A → Result E B) {b : B}
    → m >>= next ≡ ok b
    → GoesThrough m next b
>>=-eq-ok (err e) next failed = absurd cc
>>=-eq-ok (ok x) next done = (x, refl, done)

pub ok-injective {ℓ κ} :
    {E : Type κ} {A : Type ℓ} {a b : A} → ◌≡◌ {A = Result E A} (ok a) (ok b) → a ≡ b
ok-injective h = cc

-- Whatever the computation returns has the property.
pub record Ensures {ℓ μ κ} {E : Type κ} {A : Type ℓ} (P : A → Type μ) (m : Result E A)
    : Type (ℓ ⊔ μ ⊔ κ) where
  pub on_ok : (a : A) → m ≡ ok a → P a

pub Ensures-bind {ℓ ν μ κ} :
    {E : Type κ} {A : Type ℓ} {B : Type ν} (Q : A → Type μ) {P : B → Type μ} (m : Result E A)
    (f : A → Result E B)
    → Ensures Q m
    → ((a : A) → Q a → Ensures P (f a))
    → Ensures P (m >>= f)
Ensures-bind Q (ok a) f km kf = kf a (km.on_ok a refl)
Ensures-bind Q (err e) f km kf = record { on_ok = λ b h. cc }

pub Ensures-ok {ℓ μ κ} :
    {E : Type κ} {A : Type ℓ} (P : A → Type μ) (a : A) → P a → Ensures {E = E} P (ok a)
Ensures-ok P a p = record { on_ok = λ b h. subst P (ok-injective h) p }

-- Two computations in a row, neither of which returns more than success.
pub Ensures-both {ℓ μ κ} :
    {E : Type κ} {P : Type ℓ} {Q : Type μ} (m n : Result E (Unit {0}))
    → Ensures (λ u. P) m
    → Ensures (λ u. Q) n
    → Ensures (λ u. P × Q) (m >> n)
Ensures-both (ok u) n km kn = record { on_ok = λ v h. (km.on_ok u refl, kn.on_ok v h) }
Ensures-both (err e) n km kn = record { on_ok = λ v h. absurd cc }

-- An early return.
pub Ensures-test {κ} :
    {E : Type κ} (b : Bool) (e : E)
    → Ensures (λ u. b ≡ true) (if◌then◌else◌ {A = Result E (Unit {0})} b (ok tt) (err e))
Ensures-test true e = record { on_ok = λ u h. refl }
Ensures-test false e = record { on_ok = λ u h. absurd cc }

pub Ensures-map {ℓ μ κ ν} :
    {E : Type κ} {A : Type ℓ} (P : A → Type μ) (Q : A → Type ν) (m : Result E A)
    → Ensures P m
    → ((a : A) → P a → Q a)
    → Ensures Q m
Ensures-map P Q m km f = record { on_ok = λ a h. f a (km.on_ok a h) }

-- `map_err(wrap)`
abbrev pub wrap_error {ℓ κ μ} :
    {E : Type κ} {F : Type μ} {A : Type ℓ} → (E → F) → Result E A → Result F A
wrap_error wrap (ok a) = ok a
wrap_error wrap (err e) = err (wrap e)

pub Ensures-wrap_error {ℓ κ μ ν} :
    {E : Type κ} {F : Type μ} {A : Type ℓ} (wrap : E → F) (P : A → Type ν) (m : Result E A)
    → Ensures P m
    → Ensures P (wrap_error wrap m)
Ensures-wrap_error wrap P (ok a) km = Ensures-ok P a (km.on_ok a refl)
Ensures-wrap_error wrap P (err e) km = record { on_ok = λ b h. absurd cc }
