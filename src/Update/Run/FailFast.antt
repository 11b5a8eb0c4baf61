-- ===== src/Update/Run/FailFast.antt =====
-- The walk without `--continue-on-error`.
use mathlib.Core.Path.{subst}
use hummingbird_k8s.Base.{
  ℕ, zero, suc, ltb, ◌≤◌, ◌<◌, Bool, true, false, not, ◌&&◌, List, [], ◌∷◌, ◌++◌, ◌≡◌, refl, sym,
  ap, ◌∙◌, arith, Option, none, some, Result, ok, err, if◌then◌else◌, length, take, drop, is_empty,
  append_assoc, append-nil,
}
use hummingbird_k8s.Text.{Text}
use hummingbird_k8s.Update.Plan.{Plan, get}
use hummingbird_k8s.Update.Net.{Network, History, Failure, no_ip}
use hummingbird_k8s.Update.Bootc.{timer_start}
use hummingbird_k8s.Update.Node.InFlight.{Hint}
use hummingbird_k8s.Update.Node.Worker.{update_worker}
use hummingbird_k8s.Update.Run.Batches.{take-drop, length-drop_le}
use hummingbird_k8s.Update.Run.{
  Step, World, then_step, ◌>>◌, done, run_worker_batch, run_one_worker, record_result, k8s_name_of,
  push_succeeded, push_failed, advance, walk, pause, push_slept,
}

-- A failure of a worker in the middle of the list.
pub record EndsAt (ws : List Text) (w v : World) : Type 0 where
  pub before : List Text
  pub failing : Text
  pub later : List Text
  pub splits : ws ≡ before ++ failing ∷ later
  pub succeeded : v.results.succeeded ≡ w.results.succeeded ++ before
  pub failed : v.results.failed ≡ w.results.failed

pub record EndsAfter (ws : List Text) (w v : World) : Type 0 where
  pub succeeded : v.results.succeeded ≡ w.results.succeeded ++ ws
  pub failed : v.results.failed ≡ w.results.failed

-- By the failure that the step ends with.
abbrev pub FailsFast : List Text → World → Option Failure × World → Type 0
FailsFast ws w (none, v) = EndsAfter ws w v
FailsFast ws w (some e, v) = EndsAt ws w v

record_result-FailsFast :
    (plan : Plan) (x ip : Text) (net : Network) (w : World)
    (p : Result Failure (Unit {0}) × List Hint × History)
    → plan.continue_on_error ≡ false
    → FailsFast (x ∷ []) w (record_result plan x ip net w p)
unfolding record_result push_succeeded advance
record_result-FailsFast plan x ip net w (ok a, hints, h) c = record {
  succeeded = refl;
  failed = refl;
}
record_result-FailsFast plan x ip net w (err e, hints, h) c =
    subst
      (λ b. FailsFast (x ∷ []) w (
        if◌then◌else◌ {A = Option Failure × World} b
          (
            none,
            record (push_failed x e (advance w hints h)) {
              history = (timer_start plan ip net h).1;
            },
          )
          (some e, advance w hints h)))
      (sym c)
      (record {
        before = [];
        failing = x;
        later = [];
        splits = refl;
        succeeded = sym (append-nil w.results.succeeded);
        failed = refl;
      })

run_one_worker-FailsFast :
    (plan : Plan) (x : Text) (net : Network) (w : World)
    → plan.continue_on_error ≡ false
    → FailsFast (x ∷ []) w (run_one_worker plan x net w)
unfolding run_one_worker
run_one_worker-FailsFast plan x net w c = go (get x plan.worker_ip_map)
  where
    go :
        (o : Option Text)
        → FailsFast (x ∷ []) w (elim o as (λ _. Option Failure × World) [
          | none ↦ (some (no_ip x), w)
          | some ip ↦
              record_result plan x ip net w
                (update_worker plan x ip (k8s_name_of plan x) net w.history)
        ])
    go none = record {
      before = [];
      failing = x;
      later = [];
      splits = refl;
      succeeded = sym (append-nil w.results.succeeded);
      failed = refl;
    }
    go (some ip) = record_result-FailsFast plan x ip net w _ c

-- What a later step makes of the lists, seen from the world before the first.
FailsFast-after :
    (xs ys zs : List Text) (w v : World) (p : Option Failure × World)
    → zs ≡ xs ++ ys
    → EndsAfter xs w v
    → FailsFast ys v p
    → FailsFast zs w p
FailsFast-after xs ys zs w v (none, u) z a b = record {
  succeeded =
      b.succeeded
      ∙ ap (λ s. s ++ ys) a.succeeded
      ∙ append_assoc w.results.succeeded xs ys
      ∙ ap (◌++◌ w.results.succeeded) (sym z);
  failed = b.failed ∙ a.failed;
}
FailsFast-after xs ys zs w v (some e, u) z a b = record {
  before = xs ++ b.before;
  failing = b.failing;
  later = b.later;
  splits = z ∙ ap (◌++◌ xs) b.splits ∙ sym (append_assoc xs b.before (b.failing ∷ b.later));
  succeeded =
      b.succeeded
      ∙ ap (λ s. s ++ b.before) a.succeeded
      ∙ append_assoc w.results.succeeded xs b.before;
  failed = b.failed ∙ a.failed;
}

>>-FailsFast :
    (m k : Step) (xs ys zs : List Text) (net : Network) (w : World)
    → zs ≡ xs ++ ys
    → FailsFast xs w (m net w)
    → ((v : World) → FailsFast ys v (k net v))
    → FailsFast zs w ((m >> k) net w)
unfolding ◌>>◌
>>-FailsFast m k xs ys zs net w z a b = go (m net w) a
  where
    go : (p : Option Failure × World) → FailsFast xs w p → FailsFast zs w (then_step net k p)
    go (none, v) c = FailsFast-after xs ys zs w v (k net v) z c (b v)
    go (some e, v) c = record {
      before = c.before;
      failing = c.failing;
      later = c.later ++ ys;
      splits = z ∙ ap (λ s. s ++ ys) c.splits ∙ append_assoc c.before (c.failing ∷ c.later) ys;
      succeeded = c.succeeded;
      failed = c.failed;
    }

run_worker_batch-FailsFast :
    (plan : Plan) (ws : List Text) (net : Network) (w : World)
    → plan.continue_on_error ≡ false
    → FailsFast ws w (run_worker_batch plan ws net w)
unfolding run_worker_batch
run_worker_batch-FailsFast plan [] net w c =
    unfold done in record { succeeded = sym (append-nil w.results.succeeded); failed = refl }
run_worker_batch-FailsFast plan (x ∷ ws) net w c =
    >>-FailsFast _ _ (x ∷ []) ws (x ∷ ws) net w refl (run_one_worker-FailsFast plan x net w c)
      (λ v. run_worker_batch-FailsFast plan ws net v c)

pause-FailsFast :
    (plan : Plan) (rest : List Text) (net : Network) (w : World)
    → FailsFast [] w (pause plan rest net w)
unfolding pause push_slept
pause-FailsFast plan rest net w =
    go (not (is_empty rest) && ltb 0 plan.timeouts.inter_node_sleep && not plan.dry_run)
  where
    go :
        (b : Bool)
        → FailsFast [] w (
            if◌then◌else◌ {A = Option Failure × World} b
              (none, push_slept plan.timeouts.inter_node_sleep w)
              (none, w))
    go true = record { succeeded = sym (append-nil w.results.succeeded); failed = refl }
    go false = record { succeeded = sym (append-nil w.results.succeeded); failed = refl }

-- Without `--continue-on-error` and with a parallelism of at least one, the walk either records all
-- workers as updated, in their order, or ends with a failure at a worker before which exactly the
-- earlier ones of the list were recorded as updated; it records no failed worker. As many rounds as
-- there are workers are enough.
pub walk-FailsFast :
    (plan : Plan) (n : ℕ) (ws : List Text) (net : Network) (w : World)
    → plan.continue_on_error ≡ false
    → 0 < plan.parallel
    → length ws ≤ n
    → FailsFast ws w (walk plan n ws net w)
unfolding walk
walk-FailsFast plan n [] net w c p l =
    unfold done in record { succeeded = sym (append-nil w.results.succeeded); failed = refl }
walk-FailsFast plan zero (x ∷ ws) net w c p l = absurd (ground arith)
walk-FailsFast plan (suc n) (x ∷ ws) net w c p l =
    >>-FailsFast _ _ (take plan.parallel (x ∷ ws)) (drop plan.parallel (x ∷ ws)) (x ∷ ws) net w
      (sym (take-drop plan.parallel (x ∷ ws))) (run_worker_batch-FailsFast plan _ net w c)
      (λ v.
        >>-FailsFast _ _ [] _ (drop plan.parallel (x ∷ ws)) net v refl
          (pause-FailsFast plan (drop plan.parallel (x ∷ ws)) net v)
          (λ u.
            walk-FailsFast plan n (drop plan.parallel (x ∷ ws)) net u c p
              (ground (arith, length-drop_le plan.parallel x ws p))))
