-- ===== src/Update/Net.antt =====
-- The world of the rolling update: the nodes that answer the commands sent to them, and the clock.
use hummingbird_k8s.Base.{ℕ, List, ◌∷◌, Result, ok, err}
use hummingbird_k8s.Text.{Text}
use hummingbird_k8s.Ssh.Options.{SshOptions}
use hummingbird_k8s.Ssh.Errors.{Error, RunOutput}

-- What the program did: a command sent over `ssh`, or a pause of some seconds.
pub data Event : Type 0 where
  ran : SshOptions → Text → Event
  slept : ℕ → Event

-- The latest event comes first.
abbrev pub History : Type 0
History = List Event

-- How the nodes answer a command, which may depend on all that happened before.
abbrev pub Network : Type 0
Network = History → SshOptions → Text → Result Error RunOutput

-- The failures of the rolling update; the arguments are those the messages show.
pub data Failure : Type 0 where
  metacharacter : ℕ → Text → Failure
  substitution : Text → Failure
  ssh_failed : Error → Failure
  context : Text → Failure → Failure
  no_ssh_back : Text → ℕ → Failure
  no_apiserver : ℕ → Failure
  not_ready : Text → ℕ → Failure
  bootid_unchanged : Text → ℕ → Failure
  daemonsets_unready : Text → ℕ → Failure
  upgrade_failed : Text → Failure
  no_ip : Text → Failure
  no_such_node : Text → Failure
  partial_failure : Failure

-- An action on the network. Log lines are left out.
abbrev pub Net {ℓ} : Type ℓ → Type ℓ
Net A = Network → History → Result Failure A × History

module _ {ℓ κ} {A : Type ℓ} {B : Type κ} where
  abbrev pub resume_with :
      Network → (A → Net B) → Result Failure A × History → Result Failure B × History
  resume_with net f (err e, h) = (err e, h)
  resume_with net f (ok a, h) = f a net h

  infixl 5 ◌>>=◌
  unfoldable pub ◌>>=◌ : Net A → (A → Net B) → Net B
  ◌>>=◌ m f net h = resume_with net f (m net h)

unfoldable pub pure {ℓ} : {A : Type ℓ} → A → Net A
pure a net h = (ok a, h)

unfoldable pub bail {ℓ} : {A : Type ℓ} → Failure → Net A
bail e net h = (err e, h)

-- `exec.run(command)`
unfoldable pub run : SshOptions → Text → Net (Result Error RunOutput)
run opts command net h = (ok (net h opts command), ran opts command ∷ h)

unfoldable pub sleep : ℕ → Net (Unit {0})
sleep n net h = (ok tt, slept n ∷ h)

abbrev pub in_context {ℓ} :
    {A : Type ℓ} → Text → Result Failure A × History → Result Failure A × History
in_context message (err e, h) = (err (context message e), h)
in_context message (ok a, h) = (ok a, h)

-- `with_context`: a message in front of the failure's.
unfoldable pub with_context {ℓ} : {A : Type ℓ} → Text → Net A → Net A
with_context message m net h = in_context message (m net h)

-- The failure of an action, as a value.
unfoldable pub attempt {ℓ} : {A : Type ℓ} → Net A → Net (Result Failure A)
attempt m net h = let (r, h') = m net h in (ok r, h')
