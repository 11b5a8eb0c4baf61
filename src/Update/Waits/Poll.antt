-- ===== src/Update/Waits/Poll.antt =====
-- The shape of the polling loops, and those that ask for SSH, the apiserver and readiness.
use hummingbird_k8s.Base.{
  ℕ, zero, suc, ltb, leb, ◌+◌, Bool, false, ◌||◌, List, [], ◌∷◌, ◌++◌, Option, none, some, Result,
  ok, err, if◌then◌else◌,
}
use hummingbird_k8s.Text.{Text, text, eq, lines, split_whitespace, starts_with}
use hummingbird_k8s.Text.Numbers.{u32_max}
use hummingbird_k8s.Ssh.Options.{SshOptions, with_connect_timeout}
use hummingbird_k8s.Update.Plan.{Plan}
use hummingbird_k8s.Update.Net.{
  Net, ◌>>=◌, pure, bail, run, sleep, attempt, Failure, no_ssh_back, no_apiserver, not_ready,
}
use hummingbird_k8s.Update.Kubectl.{node_ssh_opts, cp_kubectl}

-- `u32::saturating_add`.
unfoldable pub saturating_add : ℕ → ℕ → ℕ
saturating_add a b = if leb (a + b) u32_max then a + b else u32_max

-- `while elapsed < timeout { probe or return; sleep(interval); elapsed += interval }`: what the
-- probe found, or nothing. The first argument bounds the rounds.
unfoldable pub poll {ℓ} : {A : Type ℓ} → ℕ → ℕ → ℕ → ℕ → Net (Option A) → Net (Option A)
poll zero interval timeout elapsed probe = pure none
poll (suc n) interval timeout elapsed probe =
    if ltb elapsed timeout
    then probe >>= (λ r. elim r [
      | some a ↦ pure (some a)
      | none ↦
          sleep interval >>= λ _. poll n interval timeout (saturating_add elapsed interval) probe
    ])
    else pure none

-- `Ok(_)` ends a wait.
unfoldable pub answered {ℓ κ} : {E : Type ℓ} {A : Type κ} → Result E A → Option (Unit {0})
answered (ok a) = some tt
answered (err e) = none

unfoldable pub refused {ℓ κ} : {E : Type ℓ} {A : Type κ} → Result E A → Option (Unit {0})
refused (ok a) = none
refused (err e) = some tt

unfoldable pub or_fail {ℓ} : {A : Type ℓ} → Failure → Option A → Net (Unit {0})
or_fail e none = bail e
or_fail e (some a) = pure tt

unfoldable pub probe_up : SshOptions → Net (Option (Unit {0}))
probe_up opts = run opts (text "true") >>= λ r. pure (answered r)

unfoldable pub probe_down : SshOptions → Net (Option (Unit {0}))
probe_down opts = run opts (text "true") >>= λ r. pure (refused r)

unfoldable pub wait_ssh_back_with : SshOptions → Text → ℕ → Bool → Net (Unit {0})
wait_ssh_back_with exec ip timeout dry_run =
    if dry_run
    then pure tt
    else poll timeout 5 timeout 0 (probe_up exec) >>= or_fail (no_ssh_back ip timeout)

-- A connection of its own with a short handshake.
unfoldable pub probe_opts : Plan → Text → SshOptions
probe_opts plan ip = with_connect_timeout (node_ssh_opts plan ip) 3

unfoldable pub wait_ssh_back : Plan → Text → Net (Unit {0})
wait_ssh_back plan ip = wait_ssh_back_with (probe_opts plan ip) ip plan.timeouts.ssh plan.dry_run

-- The wait for the drop only warns when it runs out of time.
unfoldable pub wait_ssh_drop_with : SshOptions → ℕ → Bool → Net (Unit {0})
wait_ssh_drop_with exec max dry_run =
    if dry_run then pure tt else poll max 1 max 0 (probe_down exec) >>= λ _. pure tt

unfoldable pub wait_ssh_drop : Plan → Text → Net (Unit {0})
wait_ssh_drop plan ip = wait_ssh_drop_with (probe_opts plan ip) plan.timeouts.ssh_drop plan.dry_run

unfoldable pub wait_apiserver_back : Plan → Net (Unit {0})
wait_apiserver_back plan =
    if plan.dry_run
    then pure tt
    else poll plan.timeouts.apiserver 10 plan.timeouts.apiserver 0
        (attempt (cp_kubectl plan (text "get --raw=/readyz")) >>= λ r. pure (answered r))
      >>= or_fail (no_apiserver plan.timeouts.apiserver)

-- The second column of a line of `kubectl get node`.
unfoldable pub is_ready_line : List Text → Bool
is_ready_line [] = false
is_ready_line (name ∷ []) = false
is_ready_line (name ∷ status ∷ cols) =
    eq status (text "Ready") || starts_with (text "Ready,") status

unfoldable pub any_ready : List Text → Bool
any_ready [] = false
any_ready (l ∷ ls) = is_ready_line (split_whitespace l) || any_ready ls

unfoldable pub stdout_has_ready_status : Text → Bool
stdout_has_ready_status stdout = any_ready (lines stdout)

unfoldable pub ready_answer : Result Failure Text → Option (Unit {0})
ready_answer (err e) = none
ready_answer (ok stdout) = if stdout_has_ready_status stdout then some tt else none

unfoldable pub wait_node_ready : Plan → Text → Net (Unit {0})
wait_node_ready plan node =
    if plan.dry_run
    then pure tt
    else poll plan.timeouts.ready 10 plan.timeouts.ready 0 (
        attempt (cp_kubectl plan (text "get node " ++ node ++ text " --no-headers")) >>= λ r.
        pure (ready_answer r))
      >>= or_fail (not_ready node plan.timeouts.ready)
