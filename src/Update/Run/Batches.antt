-- ===== src/Update/Run/Batches.antt =====
-- The batches of the walk in `run` and `run_worker_batch`, whose workers the code updates one after
-- the other, though README.md and docs/update-cluster.md describe them as concurrent.
use hummingbird_k8s.Base.{
  ℕ, zero, suc, ltb, ◌≤◌, ◌<◌, Bool, true, false, not, ◌&&◌, List, [], ◌∷◌, ◌++◌, ◌≡◌, refl, sym,
  ap, ◌∙◌, arith, Option, none, some, if◌then◌else◌, is_empty, length, take, drop,
}
use hummingbird_k8s.Text.{Text}
use hummingbird_k8s.Update.Plan.{Plan}
use hummingbird_k8s.Update.Net.{Network, Failure}
use hummingbird_k8s.Update.Run.{
  Step, World, then_step, ◌>>◌, done, run_worker_batch, run_one_worker, walk, pause, push_slept,
}

pub take-drop : {A : Type 0} (n : ℕ) (xs : List A) → take n xs ++ drop n xs ≡ xs
take-drop zero xs = refl
take-drop (suc n) [] = refl
take-drop (suc n) (x ∷ xs) = ap (◌∷◌ x) (take-drop n xs)

pub length-drop_le :
    {A : Type 0} (n : ℕ) (x : A) (xs : List A) → 0 < n → length (drop n (x ∷ xs)) ≤ length xs
length-drop_le zero x xs h = absurd (ground arith)
length-drop_le (suc n) x xs h = go n xs
  where
    go : {A : Type 0} (n : ℕ) (xs : List A) → length (drop n xs) ≤ length xs
    go zero xs = ground arith
    go (suc n) [] = ground arith
    go (suc n) (x ∷ xs) = ground (arith, go n xs)

>>-assoc : (a b c : Step) (net : Network) (w : World) → (a >> (b >> c)) net w ≡ (a >> b >> c) net w
unfolding ◌>>◌
>>-assoc a b c net w = go (a net w)
  where
    go :
        (p : Option Failure × World)
        → then_step net (λ n v. then_step n c (b n v)) p ≡ then_step net c (then_step net b p)
    go (none, v) = refl
    go (some e, v) = refl

>>-cong :
    (a b c : Step) (net : Network) (w : World)
    → ((v : World) → b net v ≡ c net v)
    → (a >> b) net w ≡ (a >> c) net w
unfolding ◌>>◌
>>-cong a b c net w e = go (a net w)
  where
    go : (p : Option Failure × World) → then_step net b p ≡ then_step net c p
    go (none, v) = e v
    go (some f, v) = refl

run_worker_batch-append :
    (plan : Plan) (xs ys : List Text) (net : Network) (w : World)
    → (run_worker_batch plan xs >> run_worker_batch plan ys) net w
      ≡ run_worker_batch plan (xs ++ ys) net w
unfolding run_worker_batch
run_worker_batch-append plan [] ys net w = unfold ◌>>◌ done in refl
run_worker_batch-append plan (x ∷ xs) ys net w =
    sym
      (>>-assoc (run_one_worker plan x) (run_worker_batch plan xs) (run_worker_batch plan ys) net w)
    ∙ >>-cong (run_one_worker plan x) _ _ net w (run_worker_batch-append plan xs ys net)

pause-none :
    (plan : Plan) (rest : List Text) (net : Network) (w : World)
    → plan.timeouts.inter_node_sleep ≡ 0
    → pause plan rest net w ≡ (none, w)
unfolding pause
pause-none plan rest net w e =
    ap
      (λ s.
        if◌then◌else◌ {A = Option Failure × World}
          (not (is_empty rest) && ltb 0 s && not plan.dry_run) (none, push_slept s w) (none, w))
      e
    ∙ go (not (is_empty rest))
  where
    go :
        (b : Bool)
        → if◌then◌else◌ {A = Option Failure × World}
            (b && false && not plan.dry_run)
            (none, push_slept 0 w)
            (none, w)
          ≡ (none, w)
    go true = refl
    go false = refl

pause-done :
    (plan : Plan) (rest : List Text) (k : Step) (net : Network) (w : World)
    → plan.timeouts.inter_node_sleep ≡ 0
    → (pause plan rest >> k) net w ≡ k net w
unfolding ◌>>◌
pause-done plan rest k net w e = ap (then_step net k) (pause-none plan rest net w e)

-- Without pauses and with a parallelism of at least one, the walk updates the workers in their
-- order, whatever the size of its batches, and as many rounds as there are workers are enough.
pub walk-run_worker_batch :
    (plan : Plan) (n : ℕ) (ws : List Text) (net : Network) (w : World)
    → 0 < plan.parallel
    → plan.timeouts.inter_node_sleep ≡ 0
    → length ws ≤ n
    → walk plan n ws net w ≡ run_worker_batch plan ws net w
unfolding walk
walk-run_worker_batch plan n [] net w p s l = unfold run_worker_batch in refl
walk-run_worker_batch plan zero (x ∷ ws) net w p s l = absurd (ground arith)
walk-run_worker_batch plan (suc n) (x ∷ ws) net w p s l =
    >>-cong (run_worker_batch plan (take plan.parallel (x ∷ ws))) _ _ net w (λ v.
      pause-done plan (drop plan.parallel (x ∷ ws)) _ net v s
      ∙ walk-run_worker_batch plan n (drop plan.parallel (x ∷ ws)) net v p s
          (ground (arith, length-drop_le plan.parallel x ws p)))
    ∙ run_worker_batch-append plan (take plan.parallel (x ∷ ws)) (drop plan.parallel (x ∷ ws)) net w
    ∙ ap (λ l. run_worker_batch plan l net w) (take-drop plan.parallel (x ∷ ws))
