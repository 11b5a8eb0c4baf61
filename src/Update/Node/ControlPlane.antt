-- ===== src/Update/Node/ControlPlane.antt =====
-- `update_cp`.
use hummingbird_k8s.Base.{false, List, ◌++◌, Result}
use hummingbird_k8s.Text.{Text, text}
use hummingbird_k8s.Text.Numbers.{to_text}
use hummingbird_k8s.Update.Plan.{Plan}
use hummingbird_k8s.Update.Net.{Network, History, Failure, bail, upgrade_failed, with_context}
use hummingbird_k8s.Update.Waits.Poll.{
  wait_ssh_back, wait_ssh_drop, wait_apiserver_back, wait_node_ready,
}
use hummingbird_k8s.Update.Waits.Gates.{
  capture_node_bootid, wait_node_bootid_changed, wait_node_daemonsets_ready,
}
use hummingbird_k8s.Update.Bootc.{
  BootcUpgradeOutcome, applied, already_current, bootc_upgrade_apply, timer_stop, timer_start,
}
use hummingbird_k8s.Update.Bootc
use hummingbird_k8s.Update.Node.InFlight.{
  InFlight, Hint, Work, ◌>>=◌, ◌>>◌, lift, modify, set_phase, finish,
}

-- The waits after the reboot.
unfoldable pub wait_for_cp : Plan → Text → Work (Unit {0})
wait_for_cp plan pre_bootid = do
  dropped ← lift (wait_ssh_drop plan plan.cp_ip)
  lift (
      with_context
        (text "CP "
          ++ plan.cp_name
          ++ text " did not come back over SSH within "
          ++ to_text plan.timeouts.ssh
          ++ text "s")
        (wait_ssh_back plan plan.cp_ip))
  modify (set_phase (text "post-reboot-pre-apiserver"))
  lift (
      with_context
        (text "CP "
          ++ plan.cp_name
          ++ text " apiserver did not return within "
          ++ to_text plan.timeouts.apiserver
          ++ text "s")
        (wait_apiserver_back plan))
  modify (set_phase (text "post-apiserver-pre-bootID"))
  lift (
      with_context
        (text "CP node "
          ++ plan.cp_name
          ++ text " bootID did not change after "
          ++ to_text plan.timeouts.ready
          ++ text "s (apiserver may be serving stale state)")
        (wait_node_bootid_changed plan plan.cp_k8s_name pre_bootid))
  modify (set_phase (text "post-bootID-pre-Ready"))
  lift (
      with_context
        (text "CP node "
          ++ plan.cp_name
          ++ text " did not reach Ready within "
          ++ to_text plan.timeouts.ready
          ++ text "s")
        (wait_node_ready plan plan.cp_k8s_name))
  modify (set_phase (text "post-Ready-pre-DaemonSet"))
  lift (
      with_context
        (text "CP "
          ++ plan.cp_name
          ++ text ": kube-system DaemonSet pods not Ready after "
          ++ to_text plan.timeouts.daemonset
          ++ text "s")
        (wait_node_daemonsets_ready plan plan.cp_k8s_name))

-- What follows on the outcome of the upgrade.
unfoldable pub after_cp_upgrade : Plan → Text → BootcUpgradeOutcome → Work (Unit {0})
after_cp_upgrade plan pre_bootid already_current = lift (timer_start plan plan.cp_ip)
after_cp_upgrade plan pre_bootid Bootc.upgrade_failed = lift (bail (upgrade_failed plan.cp_name))
after_cp_upgrade plan pre_bootid applied = do
  wait_for_cp plan pre_bootid
  lift (timer_start plan plan.cp_ip)

unfoldable pub cp_body : Plan → Work (Unit {0})
cp_body plan = do
  lift (timer_stop plan plan.cp_ip)
  pre_bootid ← lift (capture_node_bootid plan plan.cp_k8s_name)
  outcome ← lift (
      with_context (text "update_cp(" ++ plan.cp_name ++ text "): bootc upgrade phase")
        (bootc_upgrade_apply plan plan.cp_ip plan.cp_name))
  after_cp_upgrade plan pre_bootid outcome

unfoldable pub start : Plan → InFlight
start plan = record {
  node = plan.cp_k8s_name;
  cp_ip = plan.cp_ip;
  drained = false;
  uncordoned = false;
  phase = text "pre-upgrade";
}

-- The result, the hints on standard error, and the history.
unfoldable pub update_cp :
    Plan → Network → History → Result Failure (Unit {0}) × List Hint × History
update_cp plan = finish (start plan) (cp_body plan)
