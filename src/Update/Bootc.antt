-- ===== src/Update/Bootc.antt =====
-- The timers of automatic updates, and `bootc upgrade`.
pub mod Outcome
use hummingbird_k8s.Base.{
  Bool, true, false, not, ◌||◌, ◌&&◌, ◌++◌, ◌==◌, none, some, Result, ok, err, if◌then◌else◌,
  is_empty,
}
use hummingbird_k8s.Text.{Text, text, eq, trim}
use hummingbird_k8s.Ssh.Options.{SshOptions}
use hummingbird_k8s.Ssh.Errors.{Error, non_zero_exit, RunOutput}
use hummingbird_k8s.Update.Plan.{Plan}
use hummingbird_k8s.Update.Net.{Net, ◌>>=◌, pure, bail, run, Failure, ssh_failed, context}
use hummingbird_k8s.Update.Kubectl.{node_ssh_opts, output_or}

abbrev pub stop_timers : Text
stop_timers =
    text
      "systemctl stop bootc-semver-update.timer bootc-fetch-apply-updates.timer 2>/dev/null || true"

-- A failure to stop the timers is only logged.
unfoldable pub timer_stop : Plan → Text → Net (Unit {0})
timer_stop plan ip =
    if plan.dry_run || plan.skip_drain
    then pure tt
    else run (node_ssh_opts plan ip) stop_timers >>= λ _. pure tt

-- `TIMER_START_PROBE`
abbrev pub timer_start_probe : Text
timer_start_probe =
    text
      "bash -c \"\n    if systemctl cat bootc-semver-update.timer >/dev/null 2>&1; then\n      systemctl start bootc-semver-update.timer\n    elif systemctl cat bootc-fetch-apply-updates.timer >/dev/null 2>&1; then\n      systemctl start bootc-fetch-apply-updates.timer\n    else\n      exit 44\n    fi\n  \""

-- A failure to start a timer is only logged.
unfoldable pub timer_start : Plan → Text → Net (Unit {0})
timer_start plan ip =
    if plan.dry_run || plan.skip_drain
    then pure tt
    else run (node_ssh_opts plan ip) timer_start_probe >>= λ _. pure tt

abbrev pub help_command : Text
help_command = text "bootc upgrade --help 2>/dev/null | grep -q -- '--apply'"

abbrev pub has_apply_failed : Text → Error → Failure
has_apply_failed ip e =
    context (text "bootc_has_apply: ssh-run failed for `bootc upgrade --help` against root@" ++ ip)
      (ssh_failed e)

unfoldable pub has_apply_answer : Text → Result Error RunOutput → Net Bool
has_apply_answer ip (ok out) = pure true
has_apply_answer ip (err (non_zero_exit host (some code) stdout stderr)) =
    if code == 1
    then pure false
    else bail (has_apply_failed ip (non_zero_exit host (some code) stdout stderr))
has_apply_answer ip (err e) = bail (has_apply_failed ip e)

unfoldable pub bootc_has_apply_with_exec : SshOptions → Text → Net Bool
bootc_has_apply_with_exec exec ip = run exec help_command >>= has_apply_answer ip

abbrev pub digest_command : Text
digest_command =
    text
      "bootc status --json 2>/dev/null | jq -r '.status.booted.image.imageDigest // .status.booted.image.digest // empty' 2>/dev/null || true"

unfoldable pub bootc_booted_digest_with_exec : SshOptions → Text → Net Text
bootc_booted_digest_with_exec exec ip = do
  answer ← run exec digest_command
  out ←
      output_or
        (λ e.
          context (text "bootc_booted_digest: ssh-run failed against root@" ++ ip) (ssh_failed e))
        answer
  pure (trim out.stdout)

pub data BootcUpgradeOutcome : Type 0 where
  applied upgrade_failed already_current : BootcUpgradeOutcome

unfoldable pub reboot_after : SshOptions → Result Error RunOutput → Net (Result Error RunOutput)
reboot_after exec (ok out) = run exec (text "systemctl reboot >/dev/null 2>&1")
reboot_after exec (err e) = pure (err e)

-- `bootc upgrade --apply`, or the upgrade and the reboot in two steps.
unfoldable pub upgrade_command : SshOptions → Bool → Net (Result Error RunOutput)
upgrade_command exec true = run exec (text "bootc upgrade --apply")
upgrade_command exec false = run exec (text "bootc upgrade") >>= reboot_after exec

unfoldable pub compare_digests : Text → Text → BootcUpgradeOutcome
compare_digests pre post =
    if not (is_empty pre) && not (is_empty post) && eq pre post then already_current else applied

-- The last `match` of `bootc_upgrade_apply_with_exec`.
unfoldable pub classify :
    SshOptions → Text → Text → Text → Result Error RunOutput → Net BootcUpgradeOutcome
classify exec ip name pre (ok out) =
    bootc_booted_digest_with_exec exec ip >>= λ post. pure (compare_digests pre post)
classify exec ip name pre (err (non_zero_exit host (some code) stdout stderr)) =
    pure (if code == 255 then applied else upgrade_failed)
classify exec ip name pre (err (non_zero_exit host none stdout stderr)) = pure upgrade_failed
classify exec ip name pre (err e) = bail (
    context
      (text "bootc_upgrade_apply: ssh-run failed for `bootc upgrade --apply` against root@"
        ++ ip
        ++ text " (node="
        ++ name
        ++ text ")")
      (ssh_failed e))

unfoldable pub bootc_upgrade_apply_with_exec :
    SshOptions → Text → Text → Bool → Net BootcUpgradeOutcome
bootc_upgrade_apply_with_exec exec ip name true = pure applied
bootc_upgrade_apply_with_exec exec ip name false = do
  pre ← bootc_booted_digest_with_exec exec ip
  has_apply ← bootc_has_apply_with_exec exec ip
  result ← upgrade_command exec has_apply
  classify exec ip name pre result

unfoldable pub bootc_upgrade_apply : Plan → Text → Text → Net BootcUpgradeOutcome
bootc_upgrade_apply plan ip name =
    bootc_upgrade_apply_with_exec (node_ssh_opts plan ip) ip name plan.dry_run
