-- ===== src/Virt/Remote.antt =====
-- `Connection::run` of rust/crates/hbird-virt/src/lib.rs: one command over the connection's
-- `SshClient`, which is a parameter.
use hummingbird_k8s.Base.{List, ◌∷◌, Result, ok, err}
use hummingbird_k8s.Text.{Text}
use hummingbird_k8s.Virt.Data.{SshError, remote_exit, Error, virsh_failed, ssh}
use hummingbird_k8s.Virt.Uri.{QemuSshUri, ssh_target}
use hummingbird_k8s.Virt.Guard.{Rejected}

-- The commands that were sent, each with its target; the latest comes first.
abbrev pub Sent : Type 0
Sent = List (Text × Text)

-- `SshClient::run`: how a host answers a command, after what was sent before.
abbrev pub Client : Type 0
Client = Sent → Text → Text → Result SshError Text

-- An error of the crate; those of the path guard are kept apart.
pub data Failure : Type 0 where
  rejected : Rejected → Failure
  failed : Error → Failure

abbrev pub Action {ℓ} : Type ℓ → Type ℓ
Action A = Client → Sent → Result Failure A × Sent

-- The two errors of a command that was sent.
unfoldable pub from_ssh : Text → SshError → Error
from_ssh command (remote_exit host sent code stderr) = virsh_failed command stderr
from_ssh command other = ssh other

unfoldable pub run_result : Text → Result SshError Text → Result Failure Text
run_result command (ok stdout) = ok stdout
run_result command (err e) = err (failed (from_ssh command e))

-- `Connection::run`.
unfoldable pub run : QemuSshUri → Text → Action Text
run uri command client sent =
    (run_result command (client sent (ssh_target uri) command), (ssh_target uri, command) ∷ sent)

-- What a failure does not stop: a parser of the command's output.
unfoldable pub parse_with {ℓ} :
    {A : Type ℓ} → (Text → Result Error A) → Result Failure Text → Result Failure A
parse_with parser (err e) = err e
parse_with parser (ok stdout) = elim (parser stdout) [ ok a ↦ ok a | err e ↦ err (failed e) ]

unfoldable pub run_parsed {ℓ} :
    {A : Type ℓ} → QemuSshUri → Text → (Text → Result Error A) → Action A
run_parsed uri command parser client sent =
    let (r, sent') = run uri command client sent in (parse_with parser r, sent')

-- `self.run(&cmd).map(|_| ())`
unfoldable pub run_unit : QemuSshUri → Text → Action (Unit {0})
run_unit uri command = run_parsed uri command (λ stdout. ok tt)
