-- ===== src/Etcd/Site.antt =====
-- The world of the etcd commands: the control plane that answers over SSH, the operator and the
-- clock. Log lines are left out.
use hummingbird_k8s.Base.{ℕ, Bool, List, ◌∷◌, Option, none, some, Result, ok, err, if◌then◌else◌}
use hummingbird_k8s.Text.{Text}
use hummingbird_k8s.Ssh.Errors.{RunOutput}
use hummingbird_k8s.Ssh.Errors as Ssh
use hummingbird_k8s.Etcd.Keys as Keys
use hummingbird_k8s.Etcd.Names.{is_affirmative}

-- A command, a command with its input, a pause of some seconds, a question to the operator.
pub data Event : Type 0 where
  ran : Text → Event
  fed : Text → Text → Event
  slept : ℕ → Event
  asked : Text → Event

-- The latest event comes first.
abbrev pub History : Type 0
History = List Event

pub data Failure : Type 0 where
  ssh_failed : Text → Ssh.Error → Failure
  empty_config : Failure
  keys_failed : Keys.Error → Failure
  unhealthy : ℕ → Ssh.Error → Failure
  not_a_terminal : Text → Failure
  no_answer : Failure
  aborted : Failure
  no_random_bytes : Failure

pub record Site : Type 0 where
  -- `exec.run` and `exec.run_with_stdin`
  pub respond : History → Event → Result Ssh.Error RunOutput
  pub is_terminal : Bool
  -- a line of the standard input, unless it cannot be read
  pub answer : History → Text → Option Text
  -- `/dev/urandom`
  pub random_key_bytes : Option (List ℕ)
  pub now_epoch_secs : ℕ

abbrev pub Action {ℓ} : Type ℓ → Type ℓ
Action A = Site → History → Result Failure A × History

module _ {ℓ κ} {A : Type ℓ} {B : Type κ} where
  abbrev pub resume_with :
      Site → (A → Action B) → Result Failure A × History → Result Failure B × History
  resume_with site f (err e, h) = (err e, h)
  resume_with site f (ok a, h) = f a site h

  infixl 5 ◌>>=◌
  unfoldable pub ◌>>=◌ : Action A → (A → Action B) → Action B
  ◌>>=◌ m f site h = resume_with site f (m site h)

infixl 5 ◌>>◌
unfoldable pub ◌>>◌ {ℓ} : {B : Type ℓ} → Action (Unit {0}) → Action B → Action B
m >> k = m >>= λ _. k

-- A computation without effects.
unfoldable pub lift {ℓ} : {A : Type ℓ} → Result Failure A → Action A
lift r site h = (r, h)

abbrev pub or_fail : (Ssh.Error → Failure) → Result Ssh.Error RunOutput → Result Failure RunOutput
or_fail fail (ok out) = ok out
or_fail fail (err e) = err (fail e)

-- A command that must succeed.
unfoldable pub send : (Ssh.Error → Failure) → Event → Action RunOutput
send fail e site h = (or_fail fail (site.respond h e), e ∷ h)

unfoldable pub do_send : (Ssh.Error → Failure) → Event → Action (Unit {0})
do_send fail e = send fail e >>= λ out. lift (ok tt)

unfoldable pub sleep : ℕ → Action (Unit {0})
sleep n site h = (ok tt, slept n ∷ h)

abbrev pub judge : Option Text → Result Failure (Unit {0})
judge none = err no_answer
judge (some line) = if is_affirmative line then ok tt else err aborted

-- `confirm`
unfoldable pub confirm : Text → Bool → Action (Unit {0})
confirm prompt assume_yes site h =
    if assume_yes
    then (ok tt, h)
    else if site.is_terminal
    then (judge (site.answer h prompt), asked prompt ∷ h)
    else (err (not_a_terminal prompt), h)
