-- ===== src/Update/Node/InFlight.antt =====
-- `InFlight`: what the program remembers of the node it updates, for the hint that its destructor
-- prints.
use hummingbird_k8s.Base.{
  Bool, true, false, not, ◌&&◌, List, [], ◌∷◌, Result, ok, err, if◌then◌else◌, is_empty,
}
use hummingbird_k8s.Text.{Text}
use hummingbird_k8s.Update.Net.{Net, Network, History, Failure}

pub record InFlight : Type 0 where
  pub node : Text
  pub cp_ip : Text
  pub drained : Bool
  pub uncordoned : Bool
  pub phase : Text

unfoldable pub mark_drained : InFlight → InFlight
mark_drained s = record s { drained = true }

unfoldable pub mark_uncordoned : InFlight → InFlight
mark_uncordoned s = record s { uncordoned = true }

unfoldable pub set_phase : Text → InFlight → InFlight
set_phase p s = record s { phase = p }

-- `Self::default()`
unfoldable pub clear_in_flight : InFlight → InFlight
clear_in_flight s = record {
  node = [];
  cp_ip = [];
  drained = false;
  uncordoned = false;
  phase = [];
}

-- The hint how to uncordon a node: the control plane's address, the node and the phase.
pub record Hint : Type 0 where
  pub at : Text
  pub cordoned : Text
  pub during : Text

-- `Drop for InFlight`: the hints that are printed.
unfoldable pub dropped : InFlight → List Hint
dropped s =
    if s.drained && not s.uncordoned && not (is_empty s.node)
    then record { at = s.cp_ip; cordoned = s.node; during = s.phase } ∷ []
    else []

-- What a piece of work leaves behind.
pub record Left {ℓ} (A : Type ℓ) : Type ℓ where
  pub result : Result Failure A
  pub state : InFlight
  pub history : History

-- Work on a node: an action on the network with an `InFlight` beside it.
abbrev pub Work {ℓ} : Type ℓ → Type ℓ
Work A = InFlight → Network → History → Left A

module _ {ℓ κ} {A : Type ℓ} {B : Type κ} where
  -- What follows, if the work before it has not failed.
  unfoldable pub after : (A → Work B) → Network → InFlight → History → Result Failure A → Left B
  after f net s h (err e) = record { result = err e; state = s; history = h }
  after f net s h (ok a) = f a s net h

  infixl 5 ◌>>=◌
  unfoldable pub ◌>>=◌ : Work A → (A → Work B) → Work B
  ◌>>=◌ m f s net h = let l = m s net h in after f net l.state l.history l.result

module _ {ℓ} {B : Type ℓ} where
  infixl 5 ◌>>◌
  unfoldable pub ◌>>◌ : Work (Unit {0}) → Work B → Work B
  m >> k = m >>= λ _. k

unfoldable pub lift {ℓ} : {A : Type ℓ} → Net A → Work A
lift m s net h = let (r, h') = m net h in record { result = r; state = s; history = h' }

unfoldable pub pure {ℓ} : {A : Type ℓ} → A → Work A
pure a s net h = record { result = ok a; state = s; history = h }

unfoldable pub modify : (InFlight → InFlight) → Work (Unit {0})
modify f s net h = record { result = ok tt; state = f s; history = h }

-- A function that ends: its result, with the hints that the destructor prints.
unfoldable pub finish {ℓ} :
    {A : Type ℓ} → InFlight → Work A → Network → History → Result Failure A × List Hint × History
finish s m net h = let l = m s net h in (l.result, dropped l.state, l.history)
