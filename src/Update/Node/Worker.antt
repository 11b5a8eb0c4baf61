-- ===== src/Update/Node/Worker.antt =====
-- `update_worker`.
use hummingbird_k8s.Base.{false, List, [], ◌++◌, Result, if◌then◌else◌}
use hummingbird_k8s.Text.{Text, text}
use hummingbird_k8s.Text.Numbers.{to_text}
use hummingbird_k8s.Update.Plan.{Plan}
use hummingbird_k8s.Update.Net.{Network, History, Failure, upgrade_failed, bail, with_context}
use hummingbird_k8s.Update.Kubectl.{cp_kubectl}
use hummingbird_k8s.Update.Waits.Poll.{wait_ssh_back, wait_ssh_drop, wait_node_ready}
use hummingbird_k8s.Update.Waits.Gates.{
  capture_node_bootid, wait_node_bootid_changed, wait_node_daemonsets_ready,
}
use hummingbird_k8s.Update.Bootc.{
  BootcUpgradeOutcome, applied, already_current, bootc_upgrade_apply, timer_stop, timer_start,
}
use hummingbird_k8s.Update.Bootc
use hummingbird_k8s.Update.Node.InFlight.{
  InFlight, Hint, Work, ◌>>=◌, ◌>>◌, lift, pure, modify, mark_drained, mark_uncordoned, set_phase,
  clear_in_flight, finish,
}

unfoldable pub drain_flags : Plan → Text
drain_flags plan =
    text "--ignore-daemonsets --timeout="
    ++ plan.timeouts.drain
    ++ (if plan.no_delete_emptydir_data then [] else text " --delete-emptydir-data")

unfoldable pub drain_command : Plan → Text → Text
drain_command plan k8s_name = text "drain " ++ k8s_name ++ text " " ++ drain_flags plan

unfoldable pub uncordon_command : Text → Text
uncordon_command k8s_name = text "uncordon " ++ k8s_name

-- The drain, unless `--skip-drain` is set.
unfoldable pub drain : Plan → Text → Work (Unit {0})
drain plan k8s_name = if plan.skip_drain then pure tt else do
  out ← lift (cp_kubectl plan (drain_command plan k8s_name))
  modify mark_drained
  modify (set_phase (text "post-drain"))

unfoldable pub uncordon : Plan → Text → Work (Unit {0})
uncordon plan k8s_name = do
  out ← lift (cp_kubectl plan (uncordon_command k8s_name))
  modify mark_uncordoned

-- The waits after the reboot.
unfoldable pub wait_for_node : Plan → Text → Text → Text → Text → Work (Unit {0})
wait_for_node plan name ip k8s_name pre_bootid = do
  dropped ← lift (wait_ssh_drop plan ip)
  modify (set_phase (text "post-reboot-pre-ssh"))
  lift (
      with_context
        (name
          ++ text ": did not come back over SSH within "
          ++ to_text plan.timeouts.ssh
          ++ text "s")
        (wait_ssh_back plan ip))
  modify (set_phase (text "post-bootID-pre-Ready"))
  lift (
      with_context
        (name
          ++ text ": node bootID did not change after "
          ++ to_text plan.timeouts.ready
          ++ text "s (apiserver may be serving stale state)")
        (wait_node_bootid_changed plan k8s_name pre_bootid))
  lift (
      with_context
        (name ++ text ": did not reach Ready within " ++ to_text plan.timeouts.ready ++ text "s")
        (wait_node_ready plan k8s_name))
  modify (set_phase (text "post-Ready-pre-DaemonSet"))
  lift (
      with_context
        (name
          ++ text ": kube-system DaemonSet pods not Ready on this node after "
          ++ to_text plan.timeouts.daemonset
          ++ text "s")
        (wait_node_daemonsets_ready plan k8s_name))

-- What follows on the outcome of the upgrade.
unfoldable pub after_upgrade :
    Plan → Text → Text → Text → Text → BootcUpgradeOutcome → Work (Unit {0})
after_upgrade plan name ip k8s_name pre_bootid Bootc.upgrade_failed =
    lift (bail (upgrade_failed name))
after_upgrade plan name ip k8s_name pre_bootid already_current = do
  if plan.skip_drain then pure tt else uncordon plan k8s_name
  lift (timer_start plan ip)
  modify clear_in_flight
after_upgrade plan name ip k8s_name pre_bootid applied = do
  wait_for_node plan name ip k8s_name pre_bootid
  modify (set_phase (text "post-DaemonSet-pre-uncordon"))
  uncordon plan k8s_name
  lift (timer_start plan ip)
  modify clear_in_flight

-- What follows the drain.
unfoldable pub upgrade_node : Plan → Text → Text → Text → Work (Unit {0})
upgrade_node plan name ip k8s_name = do
  pre_bootid ← lift (capture_node_bootid plan k8s_name)
  outcome ← lift (
      with_context (text "update_worker(" ++ name ++ text "): bootc upgrade phase")
        (bootc_upgrade_apply plan ip name))
  after_upgrade plan name ip k8s_name pre_bootid outcome

unfoldable pub worker_body : Plan → Text → Text → Text → Work (Unit {0})
worker_body plan name ip k8s_name = do
  lift (timer_stop plan ip)
  drain plan k8s_name
  upgrade_node plan name ip k8s_name

unfoldable pub start : Plan → Text → InFlight
start plan k8s_name = record {
  node = k8s_name;
  cp_ip = plan.cp_ip;
  drained = false;
  uncordoned = false;
  phase = text "pre-drain";
}

-- The result, the hints on standard error, and the history.
unfoldable pub update_worker :
    Plan → Text → Text → Text → Network → History → Result Failure (Unit {0}) × List Hint × History
update_worker plan name ip k8s_name =
    finish (start plan k8s_name) (worker_body plan name ip k8s_name)
