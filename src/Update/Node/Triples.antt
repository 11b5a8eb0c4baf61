-- ===== src/Update/Node/Triples.antt =====
-- Pre- and postconditions of work on a node, on its `InFlight`.
use hummingbird_k8s.Base.{Result, ok, err, ◌≡◌, ap}
use hummingbird_k8s.Update.Net.{Net, Network, History, Failure, bail}
use hummingbird_k8s.Update.Node.InFlight.{InFlight, Work, after, ◌>>=◌, ◌>>◌, lift, modify}

-- What holds of the state, by the result.
abbrev pub Settles {ℓ} :
    {A : Type ℓ}
    → (A → InFlight → Type 0)
    → (InFlight → Type 0)
    → Result Failure A
    → InFlight
    → Type 0
Settles Q R (ok a) s = Q a s
Settles Q R (err e) s = R s

-- Work that starts in `P` ends in `Q` if it succeeds, and in `R` if it fails.
pub record Triple {ℓ} {A : Type ℓ} (P : InFlight → Type 0) (m : Work A) (Q : A → InFlight → Type 0)
    (R : InFlight → Type 0) : Type ℓ where
  pub runs :
      (s : InFlight) (net : Network) (h : History)
      → P s
      → Settles Q R (m s net h).result (m s net h).state

module _ {A B : Type 0} {P : InFlight → Type 0} where
  pub Triple-bind :
      (Q : A → InFlight → Type 0) {S : B → InFlight → Type 0} {R : InFlight → Type 0} (m : Work A)
      (f : A → Work B)
      → Triple P m Q R
      → ((a : A) → Triple (Q a) (f a) S R)
      → Triple P (m >>= f) S R
  unfolding ◌>>=◌ after
  Triple-bind Q {S = S} {R = R} m f t k = record {
    runs = λ s net h p.
        go net (m s net h).result (m s net h).state (m s net h).history (t.runs s net h p);
  }
    where
      go :
          (net : Network) (r : Result Failure A) (s : InFlight) (h : History)
          → Settles Q R r s
          → Settles S R (after f net s h r).result (after f net s h r).state
      go net (ok a) s h q = (k a).runs s net h q
      go net (err e) s h q = q

-- An action on the network leaves the state as it is.
module _ {A : Type 0} {P : InFlight → Type 0} where
  pub Triple-lift : (m : Net A) → Triple P (lift m) (λ _. P) P
  unfolding lift
  Triple-lift m = record { runs = λ s net h p. go (m net h).0 s p }
    where
      go : (r : Result Failure A) (s : InFlight) → P s → Settles (λ _. P) P r s
      go (ok a) s p = p
      go (err e) s p = p

module _ {B : Type 0} {P : InFlight → Type 0} where
  pub Triple-seq :
      (Q : InFlight → Type 0) {S : B → InFlight → Type 0} {R : InFlight → Type 0}
      (m : Work (Unit {0})) (k : Work B)
      → Triple P m (λ _. Q) R
      → Triple Q k S R
      → Triple P (m >> k) S R
  unfolding ◌>>◌
  Triple-seq Q m k t u = Triple-bind (λ _. Q) m (λ _. k) t (λ _. u)

pub Triple-modify :
    {P Q R : InFlight → Type 0} (f : InFlight → InFlight)
    → ((s : InFlight) → P s → Q (f s))
    → Triple P (modify f) (λ _. Q) R
unfolding modify
Triple-modify f k = record { runs = λ s net h p. k s p }

-- An action that cannot fail.
pub Triple-lift_ok :
    {A : Type 0} {P R : InFlight → Type 0} (m : Net A) (a : A)
    → ((net : Network) (h : History) → (m net h).0 ≡ ok a)
    → Triple P (lift m) (λ _. P) R
unfolding lift
Triple-lift_ok {A = A} {P = P} {R = R} m a e = record {
  runs = λ s net h p. go (m net h).0 s (e net h) p;
}
  where
    go : (r : Result Failure A) (s : InFlight) → r ≡ ok a → P s → Settles (λ _. P) R r s
    go (ok b) s l p = p
    go (err b) s l p = cc

pub Triple-bail :
    {A : Type 0} {P : InFlight → Type 0} {Q : A → InFlight → Type 0} (e : Failure)
    → Triple P (lift (bail e)) Q P
unfolding lift bail
Triple-bail e = record { runs = λ s net h p. p }

-- After an action that succeeds the work goes on.
pub lift_ok-seq :
    {B : Type 0} (m : Net (Unit {0})) (k : Work B) (s : InFlight) (net : Network) (h : History)
    → (m net h).0 ≡ ok tt
    → (lift m >> k) s net h ≡ k s net (m net h).1
unfolding lift ◌>>◌ ◌>>=◌ after
lift_ok-seq m k s net h e = ap (after (λ _. k) net s (m net h).1) e
