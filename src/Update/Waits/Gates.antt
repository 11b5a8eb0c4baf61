-- ===== src/Update/Waits/Gates.antt =====
-- The gates after a reboot: the node's bootID has changed, and the pods of its DaemonSets are ready.
use hummingbird_k8s.Base.{
  ℕ, zero, suc, ltb, Bool, false, not, ◌||◌, ◌&&◌, List, [], ◌∷◌, ◌++◌, Option, none, some, Result,
  ok, err, if◌then◌else◌, is_empty,
}
use hummingbird_k8s.Text.{Text, text, eq, lines, trim, contains, split_once}
use hummingbird_k8s.Update.Plan.{Plan}
use hummingbird_k8s.Update.Net.{
  Net, ◌>>=◌, pure, sleep, attempt, Failure, bootid_unchanged, daemonsets_unready,
}
use hummingbird_k8s.Update.Kubectl.{cp_kubectl}
use hummingbird_k8s.Update.Waits.Poll.{poll, or_fail}

unfoldable pub bootid_command : Text → Text
bootid_command node = text "get node " ++ node ++ text " -o jsonpath='{.status.nodeInfo.bootID}'"

-- The trimmed value of an attempt, if it is not empty.
unfoldable pub bootid_answer : Result Failure Text → Option Text
bootid_answer (err e) = none
bootid_answer (ok val) = let s = trim val in if is_empty s then none else some s

-- The attempts of `capture_node_bootid`: no pause after the last one, and no failure.
unfoldable pub capture_attempts : ℕ → Net Text → Net Text
capture_attempts zero kubectl = pure []
capture_attempts (suc n) kubectl = attempt kubectl >>= (λ r. elim (bootid_answer r) [
  | some s ↦ pure s
  | none ↦ (if ltb 0 n then sleep 2 else pure tt) >>= λ _. capture_attempts n kubectl
])

unfoldable pub capture_node_bootid : Plan → Text → Net Text
capture_node_bootid plan node =
    if plan.dry_run
    then pure (text "<dry-run-bootid>")
    else capture_attempts 3 (cp_kubectl plan (bootid_command node))

-- A bootID that is read and is not the one before the reboot.
unfoldable pub changed_answer : Text → Result Failure Text → Option (Unit {0})
changed_answer pre r = elim (bootid_answer r) [
  | none ↦ none
  | some cur ↦ if eq cur pre then none else some tt
]

unfoldable pub wait_node_bootid_changed : Plan → Text → Text → Net (Unit {0})
wait_node_bootid_changed plan node pre_bootid =
    if plan.skip_gates || is_empty pre_bootid || plan.dry_run
    then pure tt
    else poll plan.timeouts.ready 5 plan.timeouts.ready 0 (
        attempt (cp_kubectl plan (bootid_command node)) >>= λ r. pure (changed_answer pre_bootid r))
      >>= or_fail (bootid_unchanged node plan.timeouts.ready)

-- The name and the ready flags of a line; without `=` both are the line.
unfoldable pub split_flags : Text → Option (Text × Text) → Text × Text
split_flags line none = (line, line)
split_flags line (some p) = p

unfoldable pub is_unready : Text → Bool
is_unready flags = is_empty flags || contains (text "false") flags

unfoldable pub collect_from : List Text → List Text
collect_from [] = []
collect_from (l ∷ ls) =
    let rest = collect_from ls in
    let (name, flags) = split_flags l (split_once b'=' l) in
    if not (is_empty l) && is_unready flags then name ∷ rest else rest

-- `_collect_unready_names`.
unfoldable pub collect_unready_names : Text → List Text
unfolding collect_from
collect_unready_names raw = collect_from (lines raw)

unfoldable pub mem : Text → List Text → Bool
mem s [] = false
mem s (t ∷ ts) = eq s t || mem s ts

-- The names of the first list that the second lacks.
unfoldable pub difference : List Text → List Text → List Text
unfolding mem
difference [] ts = []
difference (s ∷ ss) ts = let rest = difference ss ts in if mem s ts then rest else s ∷ rest

unfoldable pub count_pods : List Text → ℕ
count_pods [] = 0
count_pods (l ∷ ls) = let n = count_pods ls in if is_empty (trim l) then n else suc n

unfoldable pub pods_answer : Result Failure Text → Option (Unit {0})
pods_answer (err e) = none
pods_answer (ok stdout) = if ltb 0 (count_pods (lines stdout)) then some tt else none

-- `unwrap_or_default()`
unfoldable pub or_default : Result Failure Text → Text
or_default (err e) = []
or_default (ok s) = s

-- The pods that are not ready now and were ready, or were not there, at the baseline.
unfoldable pub new_unready : List Text → Result Failure Text → List Text
new_unready baseline r = difference (collect_unready_names (or_default r)) baseline

unfoldable pub pods_command : Text → Text
pods_command node =
    text "get pods -n kube-system --field-selector=spec.nodeName=" ++ node ++ text " --no-headers"

unfoldable pub raw_command : Text → Text
raw_command node =
    text "get pods -n kube-system --field-selector=spec.nodeName="
    ++ node
    ++ text
        " -o jsonpath='{range .items[*]}{.metadata.name}={range .status.containerStatuses[*]}{.ready},{end}{\"\\n\"}{end}'"

unfoldable pub when_empty : List Text → Option (Unit {0})
when_empty [] = some tt
when_empty (s ∷ ss) = none

-- The second phase of `wait_node_daemonsets_ready`.
unfoldable pub wait_new_ready : Plan → Text → List Text → Net (Unit {0})
wait_new_ready plan node baseline =
    poll plan.timeouts.daemonset 5 plan.timeouts.daemonset 0 (
      attempt (cp_kubectl plan (raw_command node)) >>= λ r.
      pure (when_empty (new_unready baseline r)))
    >>= or_fail (daemonsets_unready node plan.timeouts.daemonset)

unfoldable pub after_pods : Plan → Text → Option (Unit {0}) → Net (Unit {0})
after_pods plan node none = pure tt
after_pods plan node (some u) = do
  r ← attempt (cp_kubectl plan (raw_command node))
  wait_new_ready plan node (collect_unready_names (or_default r))

unfoldable pub wait_node_daemonsets_ready : Plan → Text → Net (Unit {0})
wait_node_daemonsets_ready plan node =
    if plan.skip_gates || plan.dry_run
    then pure tt
    else poll 60 2 60 0
        (attempt (cp_kubectl plan (pods_command node)) >>= λ r. pure (pods_answer r))
      >>= after_pods plan node
