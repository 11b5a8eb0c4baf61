-- ===== src/Virt/Connection/Removal.antt =====
-- `remote_rm_rf` behind its guard.
use hummingbird_k8s.Base.{ℕ, true, [], ◌∷◌, ◌++◌, ◌≡◌, refl, some, Result, ok, err}
use hummingbird_k8s.Text.{Text, text}
use hummingbird_k8s.Virt.Uri.{QemuSshUri, ssh_target}
use hummingbird_k8s.Virt.Guard.{
  Rejected, reject_destructive_path, is_banned, slashes, Refuses, reject_destructive_path-banned,
}
use hummingbird_k8s.Virt.Shell.Words.{shell_words}
use hummingbird_k8s.Virt.Remote.{Client, Sent, Failure, rejected, run_unit, run_parsed, run}
use hummingbird_k8s.Virt.Connection.{remote_rm_rf, rm_rf_command, unless_rejected}
use hummingbird_k8s.Virt.Connection.Words.{path_commands-Reads}

-- What the guard's answer makes of the commands sent.
abbrev pub Guarded :
    QemuSshUri
    → Text
    → Sent
    → Result Failure (Unit {0}) × Sent
    → Result Rejected (Unit {0})
    → Type 0
Guarded uri path sent (r, sent') (err e) = (r ≡ err (rejected e)) × (sent' ≡ sent)
Guarded uri path sent (r, sent') (ok u) =
    (command : Text) × (sent' ≡ (ssh_target uri, command) ∷ sent)
    × (shell_words command ≡ some (text "rm" ∷ text "-rf" ∷ text "--" ∷ path ∷ []))

-- A path that the guard refuses ends in the guard's error with nothing sent to the host. For every
-- other path exactly one command is sent, to the connection's target, and a shell reads it as
-- `rm -rf --` with the path as its only argument.
pub remote_rm_rf-Guarded :
    (uri : QemuSshUri) (path : Text) (client : Client) (sent : Sent)
    → Guarded uri path sent (remote_rm_rf uri path client sent) (reject_destructive_path path)
unfolding remote_rm_rf
remote_rm_rf-Guarded uri path client sent = go (reject_destructive_path path)
  where
    go :
        (r : Result Rejected (Unit {0}))
        → Guarded uri path sent
            (unless_rejected r (run_unit uri (rm_rf_command path)) client sent)
            r
    go (err e) = (refl, refl)
    go (ok u) =
        unfold run_unit run_parsed run in
        (rm_rf_command path, refl, (path_commands-Reads uri path path).1.1.0)

-- Nothing is sent for a path on the list of system directories, with any number of slashes behind
-- it.
pub remote_rm_rf-banned :
    (uri : QemuSshUri) (c : ℕ) (s : Text) (n : ℕ) (client : Client) (sent : Sent)
    → is_banned (c ∷ s) ≡ true
    → (remote_rm_rf uri ((c ∷ s) ++ slashes n) client sent).1 ≡ sent
unfolding remote_rm_rf
remote_rm_rf-banned uri c s n client sent h =
    go (reject_destructive_path ((c ∷ s) ++ slashes n)) (reject_destructive_path-banned c s n h)
  where
    go :
        (r : Result Rejected (Unit {0}))
        → Refuses r
        → (unless_rejected r (run_unit uri (rm_rf_command ((c ∷ s) ++ slashes n))) client sent).1
          ≡ sent
    go (err e) k = refl
    go (ok u) k = absurd k
