-- ===== src/Tests/Update.antt =====
-- The theorems on the rolling update, at a cluster with two workers.
use hummingbird_k8s.Base.{
  ◌+◌, ◌≤◌, ◌≡◌, refl, [], ◌∷◌, ◌++◌, List, ok, err, none, some, true, false, arith,
}
use hummingbird_k8s.Text
use hummingbird_k8s.Text.{Text, text, eq}
use hummingbird_k8s.Ssh.Options
use hummingbird_k8s.Ssh.Options.{SshOptions, new}
use hummingbird_k8s.Ssh.Errors.{Error, RunOutput}
use hummingbird_k8s.Ssh.Errors
use hummingbird_k8s.Update.Plan
use hummingbird_k8s.Update.Plan.{Plan, Timeouts, workers_to_run}
use hummingbird_k8s.Update.Net
use hummingbird_k8s.Update.Net.{Network, History, Failure, ran, context, ssh_failed}
use hummingbird_k8s.Update.Kubectl
use hummingbird_k8s.Update.Kubectl.{cp_kubectl}
use hummingbird_k8s.Update.Guards.{Sends, cp_kubectl-Sends, Resumes, workers_to_run-Resumes}
use hummingbird_k8s.Update.Waits.Poll
use hummingbird_k8s.Update.Waits.Poll.{wait_ssh_back_with}
use hummingbird_k8s.Update.Waits.Gates.{wait_new_ready, raw_command}
use hummingbird_k8s.Update.Waits.Bounds.{poll-enough, seconds_slept, wait_ssh_back_with-slept}
use hummingbird_k8s.Update.Waits.Answers.{
  EndsAnswered, wait_ssh_back_with-EndsAnswered, wait_new_ready-err,
}
use hummingbird_k8s.Update.Node.Worker.{update_worker}
use hummingbird_k8s.Update.Node.Hints.{IsHinted, drain_result, update_worker-IsHinted}
use hummingbird_k8s.Update.Run.{fresh, walk, run_worker_batch}
use hummingbird_k8s.Update.Run.FailFast.{FailsFast, walk-FailsFast}
use hummingbird_k8s.Update.Env
use hummingbird_k8s.Text.Numbers
use hummingbird_k8s.Update.Env.{Environment, from_env}
use hummingbird_k8s.Update.Env.Sound.{IsSane, from_env-IsSane}
use hummingbird_k8s.Update.Bootc
use hummingbird_k8s.Update.Bootc.{already_current, bootc_upgrade_apply_with_exec}
use hummingbird_k8s.Update.Bootc.Outcome.{ReadsAgain, bootc_upgrade_apply_with_exec-ReadsAgain}
use hummingbird_k8s.Update.Node.ControlPlane.{update_cp}
use hummingbird_k8s.Update.Node.Quiet.{update_cp_quiet, update_worker_quiet}
use hummingbird_k8s.Update.Run.Batches.{walk-run_worker_batch}
use hummingbird_k8s.Update.Run.Records.{RecordsAll, walk-RecordsAll}

abbrev timeouts : Timeouts
timeouts = record {
  drain = text "5m";
  ready = 300;
  daemonset = 300;
  apiserver = 300;
  ssh = 300;
  ssh_drop = 30;
  inter_node_sleep = 0;
  ssh_command = 3600;
}

abbrev workers : List Text
workers = text "w1" ∷ text "w2" ∷ []

abbrev plan : Plan
plan = record {
  config_path = text "cluster.local.conf";
  cp_name = text "cp1";
  cp_ip = text "10.0.0.1";
  worker_names = workers;
  worker_ip_map = (text "w1", text "10.0.0.2") ∷ (text "w2", text "10.0.0.3") ∷ [];
  worker_k8s_name_map = [];
  cp_k8s_name = text "cp1";
  workers_only = false;
  skip_drain = false;
  skip_gates = false;
  dry_run = false;
  continue_on_error = true;
  no_delete_emptydir_data = false;
  node_filter = none;
  start_from = some (text "w2");
  parallel = 2;
  kvm_host = none;
  no_sudo = false;
  timeouts = timeouts;
}

-- Nodes that answer every command with nothing, and nodes that are out of reach.
abbrev all_well : Network
all_well h opts command = ok (record { stdout = []; stderr = [] })

abbrev out_of_reach : Network
out_of_reach h opts command = err (Errors.wait opts.host)

update_worker-IsHinted_example :
    let (r, hints, h') = update_worker plan (text "w1") (text "10.0.0.2") (text "w1") all_well [] in
    IsHinted plan (text "w1") (drain_result plan (text "10.0.0.2") (text "w1") all_well []) r hints
unfolding text
update_worker-IsHinted_example =
    update_worker-IsHinted plan (text "w1") (text "10.0.0.2") (text "w1") all_well [] refl (λ p. cc)

walk-RecordsAll_example : RecordsAll workers fresh (walk plan 2 workers out_of_reach fresh)
unfolding Plan.get text eq
walk-RecordsAll_example =
    walk-RecordsAll plan 2 workers out_of_reach fresh refl (ground arith) (ground arith)
      ((text "10.0.0.2", refl), ((text "10.0.0.3", refl), tt))

walk-run_worker_batch_example :
    walk plan 2 workers out_of_reach fresh ≡ run_worker_batch plan workers out_of_reach fresh
walk-run_worker_batch_example =
    walk-run_worker_batch plan 2 workers out_of_reach fresh (ground arith) refl (ground arith)

cp_kubectl-Sends_example :
    Sends plan (text "get nodes") [] (cp_kubectl plan (text "get nodes") all_well []).1
cp_kubectl-Sends_example = cp_kubectl-Sends plan (text "get nodes") all_well []

workers_to_run-Resumes_example : Resumes (text "w2") workers (workers_to_run plan)
unfolding text eq
workers_to_run-Resumes_example = workers_to_run-Resumes plan (text "w2") refl refl

abbrev node : SshOptions
node = new (text "10.0.0.2")

wait_ssh_back_with-slept_example :
    seconds_slept (wait_ssh_back_with node (text "10.0.0.2") 300 false out_of_reach []).1
    ≤ seconds_slept [] + (300 + 4)
wait_ssh_back_with-slept_example =
    wait_ssh_back_with-slept node (text "10.0.0.2") 300 false out_of_reach [] (ground arith)

node-back :
    wait_ssh_back_with node (text "10.0.0.2") 300 false all_well []
    ≡ (ok tt, ran node (text "true") ∷ [])
unfolding wait_ssh_back_with Poll.poll Net.◌>>=◌ Poll.probe_up Net.run Net.pure Poll.answered
    Poll.or_fail
node-back = refl

wait_ssh_back_with-EndsAnswered_example :
    EndsAnswered node (text "true") all_well (ran node (text "true") ∷ [])
wait_ssh_back_with-EndsAnswered_example =
    wait_ssh_back_with-EndsAnswered node (text "10.0.0.2") 300 all_well []
      (ran node (text "true") ∷ []) node-back

abbrev kubectl_failure : Failure
kubectl_failure =
    context
      (text "cp_kubectl: ssh-run failed for `kubectl ... "
        ++ raw_command (text "w1")
        ++ text "` against 10.0.0.1")
      (ssh_failed (Errors.wait (text "10.0.0.1")))

kubectl-fails : (cp_kubectl plan (raw_command (text "w1")) out_of_reach []).0 ≡ err kubectl_failure
unfolding cp_kubectl text Kubectl.cp_kubectl_live Kubectl.guard_command raw_command
    Kubectl.is_metacharacter Text.contains Kubectl.send_kubectl Net.◌>>=◌ Net.run Kubectl.output_or
    Net.bail Kubectl.cp_ssh_opts Options.with_user new
kubectl-fails = refl

wait_new_ready-err_example :
    wait_new_ready plan (text "w1") [] out_of_reach []
    ≡ (ok tt, (cp_kubectl plan (raw_command (text "w1")) out_of_reach []).1)
wait_new_ready-err_example =
    wait_new_ready-err plan (text "w1") [] out_of_reach [] kubectl_failure (ground arith)
      kubectl-fails

abbrev fail_fast : Plan
fail_fast = record plan { continue_on_error = false }

walk-FailsFast_example : FailsFast workers fresh (walk fail_fast 2 workers out_of_reach fresh)
walk-FailsFast_example =
    walk-FailsFast fail_fast 2 workers out_of_reach fresh refl (ground arith) (ground arith)

abbrev unset : Environment
unset name = none

abbrev defaults : Timeouts
defaults = record timeouts { inter_node_sleep = 5 }

from_env-unset : from_env unset ≡ ok defaults
unfolding from_env text Env.req_drain Env.strip_unit Text.is_ascii_digit Env.req_u32_strict_pos
    Numbers.parse_uint Numbers.to_text Env.req_u32_nonneg
from_env-unset = refl

from_env-IsSane_example : IsSane defaults
from_env-IsSane_example = from_env-IsSane unset defaults from_env-unset

update_cp_quiet_example : (update_cp plan out_of_reach []).1 ≡ []
update_cp_quiet_example = update_cp_quiet plan out_of_reach []

update_worker_quiet_example :
    (update_worker
      (record plan { skip_drain = true })
      (text "w1")
      (text "10.0.0.2")
      (text "w1")
      out_of_reach
      []).1
    ≡ []
update_worker_quiet_example =
    update_worker_quiet (record plan { skip_drain = true }) (text "w1") (text "10.0.0.2")
      (text "w1") out_of_reach [] refl

-- A node whose image stays the same, and that answers every command with its digest.
abbrev same_image : Network
same_image h opts command = ok (record { stdout = text "sha256:1\n"; stderr = [] })

abbrev upgraded : History
upgraded =
    ran node Bootc.digest_command
    ∷ ran node (text "bootc upgrade --apply")
    ∷ ran node Bootc.help_command
    ∷ ran node Bootc.digest_command
    ∷ []

upgrade-current :
    bootc_upgrade_apply_with_exec node (text "10.0.0.2") (text "w1") false same_image []
    ≡ (ok already_current, upgraded)
unfolding bootc_upgrade_apply_with_exec text Net.◌>>=◌ Bootc.bootc_booted_digest_with_exec Net.run
    Kubectl.output_or Net.pure Bootc.bootc_has_apply_with_exec Bootc.has_apply_answer
    Bootc.upgrade_command Bootc.classify Bootc.compare_digests Text.trim Text.is_whitespace eq
upgrade-current = refl

bootc_upgrade_apply_with_exec-ReadsAgain_example :
    ReadsAgain node (text "10.0.0.2") same_image [] upgraded
bootc_upgrade_apply_with_exec-ReadsAgain_example =
    bootc_upgrade_apply_with_exec-ReadsAgain node (text "10.0.0.2") (text "w1") same_image []
      upgraded upgrade-current

poll-enough_example :
    Poll.poll 300 5 300 0 (Poll.probe_up node) out_of_reach []
    ≡ Poll.poll 600 5 300 0 (Poll.probe_up node) out_of_reach []
poll-enough_example =
    poll-enough (Poll.probe_up node) 5 300 out_of_reach 300 600 0 [] (ground arith) (ground arith)
      (ground arith) (ground arith)
