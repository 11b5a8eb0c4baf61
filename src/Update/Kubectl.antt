-- ===== src/Update/Kubectl.antt =====
-- `cp_ssh_opts`, `node_ssh_opts` and `cp_kubectl`: commands that the control plane runs.
use hummingbird_k8s.Base.{
  ℕ, ltb, Bool, ◌||◌, [], ◌∷◌, ◌++◌, ◌==◌, Option, none, some, Result, ok, err, if◌then◌else◌,
}
use hummingbird_k8s.Text.{Text, text, contains}
use hummingbird_k8s.Ssh.Options.{SshOptions, new, with_user, with_proxy_jump, with_command_timeout}
use hummingbird_k8s.Ssh.Errors.{RunOutput}
use hummingbird_k8s.Update.Plan.{Plan}
use hummingbird_k8s.Update.Net.{
  Net, ◌>>=◌, pure, bail, run, Failure, metacharacter, substitution, ssh_failed, context,
}

unfoldable pub jump_through : Option Text → SshOptions → SshOptions
jump_through none o = o
jump_through (some jump) o = with_proxy_jump o jump

unfoldable pub cp_ssh_opts : Plan → SshOptions
unfolding jump_through
cp_ssh_opts plan = jump_through plan.kvm_host (with_user (new plan.cp_ip) (text "root"))

unfoldable pub node_ssh_opts : Plan → Text → SshOptions
unfolding jump_through
node_ssh_opts plan ip =
    let o = jump_through plan.kvm_host (with_user (new ip) (text "root")) in
    if ltb 0 plan.timeouts.ssh_command then with_command_timeout o plan.timeouts.ssh_command else o

unfoldable pub is_metacharacter : ℕ → Bool
is_metacharacter c = c == b';' || c == b'&' || c == b'|' || c == b'`' || c == b'\n' || c == b'\r'

unfoldable pub find_metacharacter : Text → Option ℕ
find_metacharacter [] = none
find_metacharacter (c ∷ s) = if is_metacharacter c then some c else find_metacharacter s

-- The command that is sent for a `kubectl` command.
unfoldable pub remote_kubectl : Text → Text
remote_kubectl command = text "kubectl --kubeconfig=/etc/kubernetes/admin.conf " ++ command

-- The guards of `cp_kubectl_live`.
unfoldable pub guard_command : Text → Option Failure
unfolding find_metacharacter
guard_command command = elim (find_metacharacter command) [
  | some bad ↦ some (metacharacter bad command)
  | none ↦ if contains (text "$(") command then some (substitution command) else none
]

-- `result.with_context(...)` on the answer to a command.
unfoldable pub output_or {ℓ} : {E : Type ℓ} → (E → Failure) → Result E RunOutput → Net RunOutput
output_or fail (err e) = bail (fail e)
output_or fail (ok out) = pure out

-- A command that passed the guards.
unfoldable pub send_kubectl : Plan → Text → Net Text
send_kubectl plan command = do
  answer ← run (cp_ssh_opts plan) (remote_kubectl command)
  output ←
      output_or
        (λ e.
          context
            (text "cp_kubectl: ssh-run failed for `kubectl ... "
              ++ command
              ++ text "` against "
              ++ plan.cp_ip)
            (ssh_failed e))
        answer
  pure output.stdout

unfoldable pub cp_kubectl_live : Plan → Text → Net Text
cp_kubectl_live plan command = elim (guard_command command) [
  | some e ↦ bail e
  | none ↦ send_kubectl plan command
]

unfoldable pub cp_kubectl : Plan → Text → Net Text
cp_kubectl plan command = if plan.dry_run then pure [] else cp_kubectl_live plan command
