-- ===== src/Update/Run/Records.antt =====
-- What the walk records of each worker.
use mathlib.Core.Path.{subst}
use hummingbird_k8s.Update.Run.Batches.{take-drop, length-drop_le}
use hummingbird_k8s.Base.{
  ℕ, zero, suc, ltb, ◌≤◌, ◌<◌, ◌+◌, Bool, true, false, not, ◌&&◌, List, [], ◌∷◌, ◌++◌, ◌≡◌, refl,
  sym, ap, arith, Option, none, some, Result, ok, err, if◌then◌else◌, length, take, drop, All,
  All-take, All-drop, is_empty,
}
use hummingbird_k8s.Text.{Text, eq}
use hummingbird_k8s.Update.Plan.{Plan, get}
use hummingbird_k8s.Update.Net.{Network, History, Failure, no_ip}
use hummingbird_k8s.Update.Bootc.{timer_start}
use hummingbird_k8s.Update.Node.InFlight.{Hint}
use hummingbird_k8s.Update.Node.Worker.{update_worker}
use hummingbird_k8s.Update.Run.{
  Step, World, then_step, ◌>>◌, done, run_worker_batch, run_one_worker, record_result, k8s_name_of,
  push_succeeded, push_failed, advance, walk, pause, push_slept,
}

-- How often a name is in the list.
unfoldable pub count : Text → List Text → ℕ
count n [] = 0
count n (m ∷ ms) = let c = count n ms in if eq m n then suc c else c

unfoldable pub names : List (Text × Failure) → List Text
names [] = []
names ((n, e) ∷ fs) = n ∷ names fs

-- How often a worker is recorded, as updated or as failed.
unfoldable pub recorded : Text → World → ℕ
recorded n w = count n w.results.succeeded + count n (names w.results.failed)

count-append : (n : Text) (xs ys : List Text) → count n (xs ++ ys) ≡ count n xs + count n ys
unfolding count
count-append n [] ys = ground arith
count-append n (x ∷ xs) ys = ground (arith, count-append n xs ys)

count-names_append :
    (n m : Text) (e : Failure) (fs : List (Text × Failure))
    → count n (names (fs ++ ((m, e) ∷ []))) ≡ count n (names fs) + count n (m ∷ [])
unfolding count names
count-names_append n m e [] = ground arith
count-names_append n m e ((k, f) ∷ fs) = ground (arith, count-names_append n m e fs)

-- The step goes on and records each of the workers once more.
pub record RecordsAll (ws : List Text) (w : World) (after : Option Failure × World) : Type 0 where
  pub goes_on : after.0 ≡ none
  pub counts : (n : Text) → recorded n after.1 ≡ recorded n w + count n ws

record_result-RecordsAll :
    (plan : Plan) (x ip : Text) (net : Network) (w : World)
    (p : Result Failure (Unit {0}) × List Hint × History)
    → plan.continue_on_error ≡ true
    → RecordsAll (x ∷ []) w (record_result plan x ip net w p)
unfolding record_result recorded push_succeeded push_failed advance
record_result-RecordsAll plan x ip net w (ok a, hints, h) c = record {
  goes_on = refl;
  counts = λ n. ground (arith, count-append n w.results.succeeded (x ∷ []));
}
record_result-RecordsAll plan x ip net w (err e, hints, h) c =
    subst
      (λ b. RecordsAll (x ∷ []) w (
        if◌then◌else◌ {A = Option Failure × World} b
          (
            none,
            record (push_failed x e (advance w hints h)) {
              history = (timer_start plan ip net h).1;
            },
          )
          (some e, advance w hints h)))
      (sym c)
      (record {
        goes_on = refl;
        counts = λ n. ground (arith, count-names_append n x e w.results.failed);
      })

-- The worker's address is known.
abbrev pub IsKnown : Plan → Text → Type 0
IsKnown plan w = (ip : Text) × (get w plan.worker_ip_map ≡ some ip)

run_one_worker-RecordsAll :
    (plan : Plan) (x : Text) (net : Network) (w : World)
    → plan.continue_on_error ≡ true
    → IsKnown plan x
    → RecordsAll (x ∷ []) w (run_one_worker plan x net w)
unfolding run_one_worker
run_one_worker-RecordsAll plan x net w c (ip, e) =
    subst
      (λ (o : Option Text). RecordsAll (x ∷ []) w (elim o [
        | none ↦ (some (no_ip x), w)
        | some ip' ↦
            record_result plan x ip' net w
              (update_worker plan x ip' (k8s_name_of plan x) net w.history)
      ]))
      (sym e) (record_result-RecordsAll plan x ip net w _ c)

-- Steps that record their workers, one after the other.
>>-RecordsAll :
    (m k : Step) (xs ys zs : List Text) (net : Network) (w : World)
    → zs ≡ xs ++ ys
    → RecordsAll xs w (m net w)
    → ((v : World) → RecordsAll ys v (k net v))
    → RecordsAll zs w ((m >> k) net w)
unfolding ◌>>◌
>>-RecordsAll m k xs ys zs net w z a b = go (m net w) a.goes_on a.counts
  where
    go :
        (p : Option Failure × World)
        → p.0 ≡ none
        → ((n : Text) → recorded n p.1 ≡ recorded n w + count n xs)
        → RecordsAll zs w (then_step net k p)
    go (some e, v) g c = absurd cc
    go (none, v) g c = record {
      goes_on = (b v).goes_on;
      counts = λ n. ground (arith, (b v).counts n, c n, count-append n xs ys, ap (count n) z);
    }

run_worker_batch-RecordsAll :
    (plan : Plan) (ws : List Text) (net : Network) (w : World)
    → plan.continue_on_error ≡ true
    → All (IsKnown plan) ws
    → RecordsAll ws w (run_worker_batch plan ws net w)
unfolding run_worker_batch
run_worker_batch-RecordsAll plan [] net w c k =
    unfold done in record { goes_on = refl; counts = λ n. unfold count in ground arith }
run_worker_batch-RecordsAll plan (x ∷ ws) net w c k =
    >>-RecordsAll _ _ (x ∷ []) ws (x ∷ ws) net w refl (run_one_worker-RecordsAll plan x net w c k.0)
      (λ v. run_worker_batch-RecordsAll plan ws net v c k.1)

pause-RecordsAll :
    (plan : Plan) (rest : List Text) (net : Network) (w : World)
    → RecordsAll [] w (pause plan rest net w)
unfolding pause push_slept recorded count
pause-RecordsAll plan rest net w =
    go (not (is_empty rest) && ltb 0 plan.timeouts.inter_node_sleep && not plan.dry_run)
  where
    go :
        (b : Bool)
        → RecordsAll [] w (
            if◌then◌else◌ {A = Option Failure × World} b
              (none, push_slept plan.timeouts.inter_node_sleep w)
              (none, w))
    go true = record { goes_on = refl; counts = λ n. ground arith }
    go false = record { goes_on = refl; counts = λ n. ground arith }

-- With `--continue-on-error`, a parallelism of at least one and every worker's address known, the
-- walk goes through to its end, and each worker is recorded, as updated or as failed, as often as
-- the list names it. As many rounds as there are workers are enough.
pub walk-RecordsAll :
    (plan : Plan) (n : ℕ) (ws : List Text) (net : Network) (w : World)
    → plan.continue_on_error ≡ true
    → 0 < plan.parallel
    → length ws ≤ n
    → All (IsKnown plan) ws
    → RecordsAll ws w (walk plan n ws net w)
unfolding walk
walk-RecordsAll plan n [] net w c p l k =
    unfold done in record { goes_on = refl; counts = λ n. unfold count in ground arith }
walk-RecordsAll plan zero (x ∷ ws) net w c p l k = absurd (ground arith)
walk-RecordsAll plan (suc n) (x ∷ ws) net w c p l k =
    >>-RecordsAll _ _ (take plan.parallel (x ∷ ws)) (drop plan.parallel (x ∷ ws)) (x ∷ ws) net w
      (sym (take-drop plan.parallel (x ∷ ws)))
      (run_worker_batch-RecordsAll plan _ net w c
        (All-take (IsKnown plan) plan.parallel (x ∷ ws) k))
      (λ v.
        >>-RecordsAll _ _ [] _ (drop plan.parallel (x ∷ ws)) net v refl
          (pause-RecordsAll plan (drop plan.parallel (x ∷ ws)) net v)
          (λ u.
            walk-RecordsAll plan n (drop plan.parallel (x ∷ ws)) net u c p
              (ground (arith, length-drop_le plan.parallel x ws p))
              (All-drop (IsKnown plan) plan.parallel (x ∷ ws) k)))
