-- ===== src/Update/Run.antt =====
-- `run_one_worker`, `run_worker_batch` and `run`: the walk over the nodes.
pub mod Batches
pub mod Records
pub mod FailFast
use hummingbird_k8s.Base.{
  ℕ, zero, suc, ltb, ◌+◌, ◌-◌, Bool, true, false, not, ◌||◌, ◌&&◌, List, [], ◌∷◌, ◌++◌, ◌==◌,
  Option, none, some, Result, ok, err, if◌then◌else◌, is_empty, length, take, drop,
}
use hummingbird_k8s.Text.{Text, eq}
use hummingbird_k8s.Update.Plan.{Plan, NameMap, get, workers_to_run}
use hummingbird_k8s.Update.Net.{
  Network, History, Event, slept, Failure, no_ip, no_such_node, partial_failure,
}
use hummingbird_k8s.Update.Bootc.{timer_start}
use hummingbird_k8s.Update.Node.InFlight.{Hint}
use hummingbird_k8s.Update.Node.Worker.{update_worker}
use hummingbird_k8s.Update.Node.ControlPlane.{update_cp}

-- The nodes that were updated, and those that failed with the reason.
pub record Results : Type 0 where
  pub succeeded : List Text
  pub failed : List (Text × Failure)

-- The program's state: what it has done and written.
pub record World : Type 0 where
  pub history : History
  pub hints : List Hint
  pub results : Results

-- A step of the walk: the failure that ends it, if any, and the world after it.
abbrev pub Step : Type 0
Step = Network → World → Option Failure × World

abbrev pub then_step : Network → Step → Option Failure × World → Option Failure × World
then_step net k (some e, w) = (some e, w)
then_step net k (none, w) = k net w

infixl 5 ◌>>◌
unfoldable pub ◌>>◌ : Step → Step → Step
◌>>◌ m k net w = then_step net k (m net w)

unfoldable pub done : Step
done net w = (none, w)

unfoldable pub push_succeeded : Text → World → World
push_succeeded n w = record w {
  results = record w.results { succeeded = w.results.succeeded ++ (n ∷ []) };
}

unfoldable pub push_failed : Text → Failure → World → World
push_failed n e w = record w {
  results = record w.results { failed = w.results.failed ++ ((n, e) ∷ []) };
}

-- The world after the update of a node.
unfoldable pub advance : World → List Hint → History → World
advance w hints h = record w { history = h; hints = w.hints ++ hints }

-- What `run_one_worker` makes of the result of `update_worker`.
unfoldable pub record_result :
    Plan
    → Text
    → Text
    → Network
    → World
    → Result Failure (Unit {0}) × List Hint × History
    → Option Failure × World
record_result plan w ip net world (ok a, hints, h) =
    (none, push_succeeded w (advance world hints h))
record_result plan w ip net world (err e, hints, h) =
    if plan.continue_on_error
    then (let failed = push_failed w e (advance world hints h) in
        (none, record failed { history = (timer_start plan ip net h).1 }))
    else (some e, advance world hints h)

unfoldable pub k8s_name_of : Plan → Text → Text
k8s_name_of plan w = elim (get w plan.worker_k8s_name_map) [ none ↦ w | some k ↦ k ]

unfoldable pub run_one_worker : Plan → Text → Step
run_one_worker plan w net world = elim (get w plan.worker_ip_map) [
  | none ↦ (some (no_ip w), world)
  | some ip ↦
      record_result plan w ip net world
        (update_worker plan w ip (k8s_name_of plan w) net world.history)
]

-- Both paths of `run_worker_batch`, which differ in their log lines only.
unfoldable pub run_worker_batch : Plan → List Text → Step
run_worker_batch plan [] = done
run_worker_batch plan (w ∷ batch) = run_one_worker plan w >> run_worker_batch plan batch

unfoldable pub push_slept : ℕ → World → World
push_slept n w = record w { history = slept n ∷ w.history }

-- The pause before the next batch.
unfoldable pub pause : Plan → List Text → Step
pause plan rest net w =
    if not (is_empty rest) && ltb 0 plan.timeouts.inter_node_sleep && not plan.dry_run
    then (none, push_slept plan.timeouts.inter_node_sleep w)
    else (none, w)

-- `while i < total`: batches of `parallel` workers. The first argument bounds the rounds.
unfoldable pub walk : Plan → ℕ → List Text → Step
walk plan fuel [] = done
walk plan zero (w ∷ ws) = done
walk plan (suc n) (w ∷ ws) =
    let batch = take plan.parallel (w ∷ ws) in
    let rest = drop plan.parallel (w ∷ ws) in
    run_worker_batch plan batch >> (pause plan rest >> walk plan n rest)

unfoldable pub record_cp :
    Plan → World → Result Failure (Unit {0}) × List Hint × History → Option Failure × World
record_cp plan w (ok a, hints, h) = (none, push_succeeded plan.cp_name (advance w hints h))
record_cp plan w (err e, hints, h) = (some e, advance w hints h)

-- A failure of the control plane always ends the run.
unfoldable pub run_cp : Plan → Step
run_cp plan net w = record_cp plan w (update_cp plan net w.history)

unfoldable pub names_worker : Text → List Text → Bool
names_worker node [] = false
names_worker node (w ∷ ws) = eq w node || names_worker node ws

-- `--node`
unfoldable pub run_single : Plan → Text → Step
run_single plan node =
    if eq node plan.cp_name
    then run_cp plan
    else if names_worker node plan.worker_names
    then run_one_worker plan node
    else λ net w. (some (no_such_node node), w)

unfoldable pub is_some {ℓ} : {A : Type ℓ} → Option A → Bool
is_some none = false
is_some (some a) = true

unfoldable pub run_all : Plan → Step
run_all plan =
    let ws = workers_to_run plan in
    (if plan.workers_only || is_some plan.start_from then done else run_cp plan)
    >> walk plan (length ws) ws

unfoldable pub footer : Step
footer net w = (if is_empty w.results.failed then none else some partial_failure, w)

abbrev pub fresh : World
fresh = record { history = []; hints = []; results = record { succeeded = []; failed = [] } }

-- `run`, from the plan that was built and the lock that was taken.
unfoldable pub run : Plan → Network → Option Failure × World
run plan net =
    ((elim plan.node_filter [ none ↦ run_all plan | some node ↦ run_single plan node ]) >> footer)
      net fresh
