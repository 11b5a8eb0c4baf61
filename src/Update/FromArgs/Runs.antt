-- ===== src/Update/FromArgs/Runs.antt =====
-- The runs of the plans that `Plan::from_args` accepts.
use mathlib.Core.Path.{subst}
use hummingbird_k8s.Base.{
  Bool, true, false, ◌||◌, List, [], ◌∷◌, ◌≡◌, arith, Option, none, some, Result, ok, err,
  if◌then◌else◌, length, All, ok-injective,
}
use hummingbird_k8s.Text.{Text, eq}
use hummingbird_k8s.Config.Build.{ClusterConfig}
use hummingbird_k8s.Virt.Remote.{Client, Sent}
use hummingbird_k8s.Update.Plan.{Plan, Timeouts, workers_to_run, resume}
use hummingbird_k8s.Update.Net.{Network}
use hummingbird_k8s.Update.Run.{World, walk}
use hummingbird_k8s.Update.Run.Records.{RecordsAll, walk-RecordsAll, IsKnown}
use hummingbird_k8s.Update.FromArgs.{from_args}
use hummingbird_k8s.Update.FromArgs.Addresses.{Args, PlanError}
use hummingbird_k8s.Update.FromArgs.Accepted.{IsAccepted, Accepts, from_args-Accepts}

resume-All :
    (P : Text → Type 0) (sf : Text) (seen : Bool) (ws : List Text)
    → All P ws
    → All P (resume sf seen ws)
unfolding resume
resume-All P sf seen [] h = tt
resume-All P sf seen (w ∷ ws) h = go (seen || eq w sf) (resume-All P sf (seen || eq w sf) ws h.1)
  where
    go :
        (b : Bool)
        → All P (resume sf (seen || eq w sf) ws)
        → All P (if b then w ∷ resume sf (seen || eq w sf) ws else resume sf (seen || eq w sf) ws)
    go true k = (h.0, k)
    go false k = k

workers_to_run-All :
    (P : Text → Type 0) (plan : Plan) → All P plan.worker_names → All P (workers_to_run plan)
unfolding workers_to_run
workers_to_run-All P plan h = go plan.start_from
  where
    go :
        (o : Option Text)
        → All P (elim o as (λ _. List Text) [
          | none ↦ plan.worker_names
          | some sf ↦ resume sf false plan.worker_names
        ])
    go none = h
    go (some sf) = resume-All P sf false plan.worker_names h

-- The plan that `from_args` accepts with `--continue-on-error`, on any network: the walk over its
-- workers goes through to its end, and records each of them, as updated or as failed, as often as
-- the list names it.
pub from_args-walk :
    (args : Args) (config : ClusterConfig) (timeouts : Timeouts) (client : Client) (sent : Sent)
    (plan : Plan) (net : Network) (w : World)
    → (from_args args config timeouts client sent).0 ≡ ok plan
    → plan.continue_on_error ≡ true
    → let ws = workers_to_run plan in RecordsAll ws w (walk plan (length ws) ws net w)
from_args-walk args config timeouts client sent plan net w built continues =
    walk-RecordsAll plan (length (workers_to_run plan)) (workers_to_run plan) net w continues
      accepted.parallel (omega arith) (workers_to_run-All (IsKnown plan) plan accepted.known)
  where
    of_result :
        (p : Result PlanError Plan × Sent)
        → Accepts args config p
        → p.0 ≡ ok plan
        → IsAccepted args config plan
    of_result (err e, s) a h = absurd cc
    of_result (ok q, s) a h = subst (IsAccepted args config) (ok-injective h) a

    accepted : IsAccepted args config plan
    accepted =
        of_result (from_args args config timeouts client sent)
          (from_args-Accepts args config timeouts client sent) built
