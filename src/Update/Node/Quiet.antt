-- ===== src/Update/Node/Quiet.antt =====
-- `update_cp`, and `update_worker` with `--skip-drain`, beside the destructor of `InFlight`.
use mathlib.Core.Path.{subst, sym}
use hummingbird_k8s.Base.{
  Bool, true, false, not, ◌&&◌, List, [], ◌∷◌, ◌≡◌, refl, ap, Result, ok, err, if◌then◌else◌,
  is_empty,
}
use hummingbird_k8s.Text.{Text, text}
use hummingbird_k8s.Update.Plan.{Plan}
use hummingbird_k8s.Update.Net.{Net, Network, History, Failure}
use hummingbird_k8s.Update.Kubectl.{cp_kubectl}
use hummingbird_k8s.Update.Bootc.{
  BootcUpgradeOutcome, applied, already_current, bootc_upgrade_apply, timer_stop, timer_start,
}
use hummingbird_k8s.Update.Bootc
use hummingbird_k8s.Update.Node.InFlight
use hummingbird_k8s.Update.Node.InFlight.{
  InFlight, Hint, Work, ◌>>=◌, ◌>>◌, lift, modify, mark_drained, mark_uncordoned, set_phase,
  clear_in_flight, finish, dropped,
}
use hummingbird_k8s.Update.Node.Worker
use hummingbird_k8s.Update.Node.Worker.{
  drain, uncordon, wait_for_node, after_upgrade, upgrade_node, worker_body, update_worker,
  drain_command,
}
use hummingbird_k8s.Update.Node.ControlPlane
use hummingbird_k8s.Update.Node.ControlPlane.{wait_for_cp, after_cp_upgrade, cp_body, update_cp}
use hummingbird_k8s.Update.Node.Triples.{
  Settles, Triple, Triple-bind, Triple-seq, Triple-lift, Triple-modify,
}

abbrev Undrained : InFlight → Type 0
Undrained s = s.drained ≡ false

-- Work that drains nothing.
abbrev Drainless : {A : Type 0} → Work A → Type 0
Drainless m = Triple Undrained m (λ _. Undrained) Undrained

seq :
    {B : Type 0} (m : Work (Unit {0})) (k : Work B) → Drainless m → Drainless k → Drainless (m >> k)
seq m k t u = Triple-seq Undrained m k t u

bind :
    {A B : Type 0} (m : Net A) (f : A → Work B)
    → ((a : A) → Drainless (f a))
    → Drainless (lift m >>= f)
bind m f k = Triple-bind (λ _. Undrained) (lift m) f (Triple-lift m) k

set_phase-Drainless : (p : Text) → Drainless (modify (set_phase p))
unfolding set_phase
set_phase-Drainless p = Triple-modify (set_phase p) (λ s c. c)

pure-Drainless : Drainless (InFlight.pure tt)
unfolding InFlight.pure
pure-Drainless = record { runs = λ s net h p. p }

uncordon-Drainless : (plan : Plan) (k8s_name : Text) → Drainless (uncordon plan k8s_name)
unfolding uncordon mark_uncordoned
uncordon-Drainless plan k8s_name = bind _ _ (λ _. Triple-modify mark_uncordoned (λ s c. c))

clear-Drainless : Drainless (modify clear_in_flight)
unfolding clear_in_flight
clear-Drainless = Triple-modify clear_in_flight (λ s c. refl)

wait_for_cp-Drainless : (plan : Plan) (pre : Text) → Drainless (wait_for_cp plan pre)
unfolding wait_for_cp
wait_for_cp-Drainless plan pre = bind _ _ λ _. seq _ _ (Triple-lift _) (
    seq _ _ (set_phase-Drainless _) (
      seq _ _ (Triple-lift _) (
        seq _ _ (set_phase-Drainless _) (
          seq _ _ (Triple-lift _) (
            seq _ _ (set_phase-Drainless _)
              (seq _ _ (Triple-lift _) (seq _ _ (set_phase-Drainless _) (Triple-lift _))))))))

after_cp_upgrade-Drainless :
    (plan : Plan) (pre : Text) (o : BootcUpgradeOutcome) → Drainless (after_cp_upgrade plan pre o)
unfolding after_cp_upgrade
after_cp_upgrade-Drainless plan pre already_current = Triple-lift _
after_cp_upgrade-Drainless plan pre Bootc.upgrade_failed = Triple-lift _
after_cp_upgrade-Drainless plan pre applied =
    seq _ _ (wait_for_cp-Drainless plan pre) (Triple-lift _)

cp_body-Drainless : (plan : Plan) → Drainless (cp_body plan)
unfolding cp_body
cp_body-Drainless plan =
    seq _ _ (Triple-lift _) (bind _ _ λ pre. bind _ _ λ o. after_cp_upgrade-Drainless plan pre o)

wait_for_node-Drainless :
    (plan : Plan) (name ip k8s_name pre : Text)
    → Drainless (wait_for_node plan name ip k8s_name pre)
unfolding wait_for_node
wait_for_node-Drainless plan name ip k8s_name pre = bind _ _ λ _. seq _ _ (set_phase-Drainless _) (
    seq _ _ (Triple-lift _) (
      seq _ _ (set_phase-Drainless _) (
        seq _ _ (Triple-lift _)
          (seq _ _ (Triple-lift _) (seq _ _ (set_phase-Drainless _) (Triple-lift _))))))

restore-Drainless :
    (plan : Plan) (ip : Text) → Drainless (lift (timer_start plan ip) >> modify clear_in_flight)
restore-Drainless plan ip = seq _ _ (Triple-lift _) clear-Drainless

unless-Drainless :
    (b : Bool) (m : Work (Unit {0})) → Drainless m → Drainless (if b then InFlight.pure tt else m)
unless-Drainless true m t = pure-Drainless
unless-Drainless false m t = t

after_upgrade-Drainless :
    (plan : Plan) (name ip k8s_name pre : Text) (o : BootcUpgradeOutcome)
    → Drainless (after_upgrade plan name ip k8s_name pre o)
unfolding after_upgrade
after_upgrade-Drainless plan name ip k8s_name pre Bootc.upgrade_failed = Triple-lift _
after_upgrade-Drainless plan name ip k8s_name pre already_current =
    seq _ _
      (unless-Drainless plan.skip_drain (uncordon plan k8s_name) (uncordon-Drainless plan k8s_name))
      (restore-Drainless plan ip)
after_upgrade-Drainless plan name ip k8s_name pre applied =
    seq _ _ (wait_for_node-Drainless plan name ip k8s_name pre) (
      seq _ _ (set_phase-Drainless _)
        (seq _ _ (uncordon-Drainless plan k8s_name) (restore-Drainless plan ip)))

drain-Drainless :
    (plan : Plan) (k8s_name : Text) → plan.skip_drain ≡ true → Drainless (drain plan k8s_name)
unfolding drain
drain-Drainless plan k8s_name e =
    subst (λ (m : Work (Unit {0})). Drainless m) (sym skipped) pure-Drainless
  where
    skipped : drain plan k8s_name ≡ InFlight.pure tt
    skipped =
        ap
          (λ b.
            if b
            then InFlight.pure tt
            else (lift (cp_kubectl plan (drain_command plan k8s_name)) >>= λ _.
                modify mark_drained >> modify (set_phase (text "post-drain"))))
          e

worker_body-Drainless :
    (plan : Plan) (name ip k8s_name : Text)
    → plan.skip_drain ≡ true
    → Drainless (worker_body plan name ip k8s_name)
unfolding worker_body upgrade_node
worker_body-Drainless plan name ip k8s_name e = seq _ _ (Triple-lift _) (
    seq _ _ (drain-Drainless plan k8s_name e)
      (bind _ _ λ pre. bind _ _ λ o. after_upgrade-Drainless plan name ip k8s_name pre o))

-- What the destructor prints of work that drains nothing.
Drainless-dropped :
    (m : Work (Unit {0})) (s : InFlight) (net : Network) (h : History)
    → Drainless m
    → s.drained ≡ false
    → dropped (m s net h).state ≡ []
unfolding dropped
Drainless-dropped m s net h t e =
    undrained (m s net h).state (settled (m s net h).result (m s net h).state (t.runs s net h e))
  where
    settled :
        (r : Result Failure (Unit {0})) (u : InFlight)
        → Settles (λ _. Undrained) Undrained r u
        → u.drained ≡ false
    settled (ok a) u k = k
    settled (err f) u k = k

    undrained : (u : InFlight) → u.drained ≡ false → dropped u ≡ []
    undrained u k =
        ap
          (λ d.
            if◌then◌else◌ {A = List Hint} (d && not u.uncordoned && not (is_empty u.node))
              (record { at = u.cp_ip; cordoned = u.node; during = u.phase } ∷ []) [])
          k

-- The update of the control plane, which drains no node, prints no recovery hint, whatever its
-- result.
pub update_cp_quiet : (plan : Plan) (net : Network) (h : History) → (update_cp plan net h).1 ≡ []
unfolding update_cp finish ControlPlane.start
update_cp_quiet plan net h = Drainless-dropped (cp_body plan) _ net h (cp_body-Drainless plan) refl

-- The update of a worker whose drain is skipped prints no recovery hint, whatever its result.
pub update_worker_quiet :
    (plan : Plan) (name ip k8s_name : Text) (net : Network) (h : History)
    → plan.skip_drain ≡ true
    → (update_worker plan name ip k8s_name net h).1 ≡ []
unfolding update_worker finish Worker.start
update_worker_quiet plan name ip k8s_name net h e =
    Drainless-dropped (worker_body plan name ip k8s_name) _ net h
      (worker_body-Drainless plan name ip k8s_name e) refl
