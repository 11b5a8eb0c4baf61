-- ===== src/Update/Node/Hints.antt =====
-- `update_worker` and the recovery hint of the destructor of `InFlight`.
use mathlib.Core.Path.{subst, sym}
use hummingbird_k8s.Base.{
  Bool, true, false, not, ◌&&◌, List, [], ◌∷◌, ◌≡◌, ◌≢◌, refl, ap, ◌∙◌, arith, Result, ok, err,
  if◌then◌else◌, is_empty,
}
use hummingbird_k8s.Text.{Text, text}
use hummingbird_k8s.Update.Plan.{Plan}
use hummingbird_k8s.Update.Net.{Net, Network, History, Failure, run, pure, bail, with_context}
use hummingbird_k8s.Update.Net
use hummingbird_k8s.Update.Kubectl.{cp_kubectl}
use hummingbird_k8s.Update.Bootc.{
  BootcUpgradeOutcome, applied, already_current, bootc_upgrade_apply, timer_stop, timer_start,
}
use hummingbird_k8s.Update.Bootc
use hummingbird_k8s.Update.Node.InFlight
use hummingbird_k8s.Update.Node.InFlight.{
  InFlight, Hint, Left, Work, after, ◌>>=◌, ◌>>◌, lift, modify, mark_drained, mark_uncordoned,
  set_phase, clear_in_flight, finish, dropped,
}
use hummingbird_k8s.Update.Waits.Poll.{wait_ssh_drop}
use hummingbird_k8s.Update.Waits.Gates.{capture_node_bootid}
use hummingbird_k8s.Update.Node.Worker.{
  drain, uncordon, wait_for_node, after_upgrade, upgrade_node, worker_body, start, update_worker,
  drain_command, uncordon_command,
}
use hummingbird_k8s.Update.Node.Triples.{
  Settles, Triple, Triple-bind, Triple-seq, Triple-lift, Triple-lift_ok, Triple-modify, Triple-bail,
  lift_ok-seq,
}

pub timer_start-ok :
    (plan : Plan) (ip : Text) (net : Network) (h : History) → (timer_start plan ip net h).0 ≡ ok tt
unfolding timer_start pure run Net.◌>>=◌
timer_start-ok plan ip net h = ground arith

pub timer_stop-ok :
    (plan : Plan) (ip : Text) (net : Network) (h : History) → (timer_stop plan ip net h).0 ≡ ok tt
unfolding timer_stop pure run Net.◌>>=◌
timer_stop-ok plan ip net h = ground arith

-- The node is drained and not uncordoned.
record Cordoned (plan : Plan) (k8s_name : Text) (s : InFlight) : Type 0 where
  node : s.node ≡ k8s_name
  cp_ip : s.cp_ip ≡ plan.cp_ip
  drained : s.drained ≡ true
  uncordoned : s.uncordoned ≡ false

abbrev Quiet : InFlight → Type 0
Quiet s = dropped s ≡ []

module _ (plan : Plan) (k8s_name : Text) where
  set_phase-Cordoned :
      {R : InFlight → Type 0} (p : Text)
      → Triple (Cordoned plan k8s_name) (modify (set_phase p)) (λ _. Cordoned plan k8s_name) R
  unfolding set_phase
  set_phase-Cordoned p = Triple-modify (set_phase p) (λ s c. record {
    node = c.node;
    cp_ip = c.cp_ip;
    drained = c.drained;
    uncordoned = c.uncordoned;
  })

  -- Work that keeps the node drained, with more work after it.
  keep :
      {S : Unit {0} → InFlight → Type 0} (m : Work (Unit {0})) (k : Work (Unit {0}))
      → Triple (Cordoned plan k8s_name) m (λ _. Cordoned plan k8s_name) (Cordoned plan k8s_name)
      → Triple (Cordoned plan k8s_name) k S (Cordoned plan k8s_name)
      → Triple (Cordoned plan k8s_name) (m >> k) S (Cordoned plan k8s_name)
  keep m k t u = Triple-seq (Cordoned plan k8s_name) m k t u

  uncordon-Triple :
      Triple
        (Cordoned plan k8s_name)
        (uncordon plan k8s_name)
        (λ _ _. Unit)
        (Cordoned plan k8s_name)
  unfolding uncordon
  uncordon-Triple =
      Triple-bind (λ _. Cordoned plan k8s_name) (lift (cp_kubectl plan (uncordon_command k8s_name)))
        _ (Triple-lift (cp_kubectl plan (uncordon_command k8s_name)))
        (λ _. Triple-modify mark_uncordoned (λ s c. tt))

  restore-Triple :
      (ip : Text) {R : InFlight → Type 0}
      → Triple (λ _. Unit {0}) (lift (timer_start plan ip) >> modify clear_in_flight) (λ _. Quiet) R
  unfolding clear_in_flight dropped
  restore-Triple ip =
      Triple-seq (λ _. Unit {0}) (lift (timer_start plan ip)) _
        (Triple-lift_ok (timer_start plan ip) tt (timer_start-ok plan ip))
        (Triple-modify clear_in_flight (λ s c. refl))

  wait_for_node-Triple :
      (name ip pre : Text)
      → Triple
          (Cordoned plan k8s_name)
          (wait_for_node plan name ip k8s_name pre)
          (λ _. Cordoned plan k8s_name)
          (Cordoned plan k8s_name)
  unfolding wait_for_node
  wait_for_node-Triple name ip pre =
      Triple-bind (λ _. Cordoned plan k8s_name) (lift (wait_ssh_drop plan ip)) _ (Triple-lift _)
        (λ _. keep _ _ (set_phase-Cordoned _) (
          keep _ _ (Triple-lift _) (
            keep _ _ (set_phase-Cordoned _) (
              keep _ _ (Triple-lift _)
                (keep _ _ (Triple-lift _) (keep _ _ (set_phase-Cordoned _) (Triple-lift _)))))))

  after_upgrade-Triple :
      (name ip pre : Text) (o : BootcUpgradeOutcome)
      → plan.skip_drain ≡ false
      → Triple
          (Cordoned plan k8s_name)
          (after_upgrade plan name ip k8s_name pre o)
          (λ _. Quiet)
          (Cordoned plan k8s_name)
  unfolding after_upgrade
  after_upgrade-Triple name ip pre Bootc.upgrade_failed d = Triple-bail _
  after_upgrade-Triple name ip pre already_current d =
      subst
        (λ b.
          Triple (Cordoned plan k8s_name)
            ((if b then InFlight.pure tt else uncordon plan k8s_name)
              >> (lift (timer_start plan ip) >> modify clear_in_flight))
            (λ _. Quiet) (Cordoned plan k8s_name))
        (sym d)
        (Triple-seq (λ _. Unit {0}) (uncordon plan k8s_name) _ uncordon-Triple (restore-Triple ip))
  after_upgrade-Triple name ip pre applied d = keep _ _ (wait_for_node-Triple name ip pre) (
      keep _ _ (set_phase-Cordoned _)
        (Triple-seq (λ _. Unit {0}) (uncordon plan k8s_name) _ uncordon-Triple (restore-Triple ip)))

  upgrade_node-Triple :
      (name ip : Text)
      → plan.skip_drain ≡ false
      → Triple
          (Cordoned plan k8s_name)
          (upgrade_node plan name ip k8s_name)
          (λ _. Quiet)
          (Cordoned plan k8s_name)
  unfolding upgrade_node
  upgrade_node-Triple name ip d =
      Triple-bind (λ _. Cordoned plan k8s_name) (lift (capture_node_bootid plan k8s_name)) _
        (Triple-lift _)
        (λ pre.
          Triple-bind (λ _. Cordoned plan k8s_name)
            (lift (with_context _ (bootc_upgrade_apply plan ip name))) _ (Triple-lift _)
            (λ o. after_upgrade-Triple name ip pre o d))

  -- The hint of a drained node.
  Cordoned-dropped :
      (s : InFlight)
      → k8s_name ≢ []
      → Cordoned plan k8s_name s
      → dropped s ≡ record { at = plan.cp_ip; cordoned = k8s_name; during = s.phase } ∷ []
  unfolding dropped
  Cordoned-dropped s ne c =
      go s.node s.cp_ip s.drained s.uncordoned c.node c.cp_ip c.drained c.uncordoned
    where
      go :
          (n ip : Text) (d u : Bool)
          → n ≡ k8s_name
          → ip ≡ plan.cp_ip
          → d ≡ true
          → u ≡ false
          → if◌then◌else◌ {A = List Hint}
              (d && not u && not (is_empty n))
              (record { at = ip; cordoned = n; during = s.phase } ∷ [])
              []
            ≡ record { at = plan.cp_ip; cordoned = k8s_name; during = s.phase } ∷ []
      go [] ip d u e f g k = absurd (ne (sym e))
      go (c ∷ n) ip true false e f g k = cc
      go (c ∷ n) ip false u e f g k = cc
      go (c ∷ n) ip true true e f g k = cc

-- The node's drain succeeded, after the timers were stopped.
abbrev pub drain_result : Plan → Text → Text → Network → History → Result Failure Text
drain_result plan ip k8s_name net h =
    (cp_kubectl plan (drain_command plan k8s_name) net (timer_stop plan ip net h).1).0

-- What the program prints by the result of the drain and of the update.
abbrev pub IsHinted :
    Plan → Text → Result Failure Text → Result Failure (Unit {0}) → List Hint → Type 0
IsHinted plan k8s_name (err e) r hints = (r ≡ err e) × (hints ≡ [])
IsHinted plan k8s_name (ok out) (ok u) hints = hints ≡ []
IsHinted plan k8s_name (ok out) (err e) hints =
    (phase : Text) × (hints ≡ record { at = plan.cp_ip; cordoned = k8s_name; during = phase } ∷ [])

module _ (plan : Plan) (name ip k8s_name : Text) (net : Network) where
  settled-IsHinted :
      (out : Text) (r : Result Failure (Unit {0})) (s : InFlight)
      → k8s_name ≢ []
      → Settles (λ _. Quiet) (Cordoned plan k8s_name) r s
      → IsHinted plan k8s_name (ok out) r (dropped s)
  settled-IsHinted out (ok u) s ne q = q
  settled-IsHinted out (err e) s ne c = (s.phase, Cordoned-dropped plan k8s_name s ne c)

  -- The update from the drain on.
  after_drain : InFlight → History → Result Failure Text → Left (Unit {0})
  unfolding after modify mark_drained set_phase ◌>>◌ ◌>>=◌
  after_drain s h r =
      let l =
        after (λ _. modify mark_drained >> modify (set_phase (text "post-drain"))) net s h r in
      after (λ _. upgrade_node plan name ip k8s_name) net l.state l.history l.result

  after_drain-IsHinted :
      (h : History) (r : Result Failure Text)
      → plan.skip_drain ≡ false
      → k8s_name ≢ []
      → let l = after_drain (start plan k8s_name) h r in
        IsHinted plan k8s_name r l.result (dropped l.state)
  unfolding after_drain start dropped
  after_drain-IsHinted h (err e) d ne = (refl, refl)
  after_drain-IsHinted h (ok out) d ne = settled-IsHinted out _ _ ne (
      (upgrade_node-Triple plan k8s_name name ip d).runs _ net h
        (record { node = refl; cp_ip = refl; drained = refl; uncordoned = refl }))

  worker_body-after_drain :
      (h : History)
      → plan.skip_drain ≡ false
      → let (r, h') =
          cp_kubectl plan (drain_command plan k8s_name) net (timer_stop plan ip net h).1 in
        worker_body plan name ip k8s_name (start plan k8s_name) net h
        ≡ after_drain (start plan k8s_name) h' r
  unfolding worker_body drain after_drain ◌>>◌ ◌>>=◌ lift
  worker_body-after_drain h d =
      lift_ok-seq (timer_stop plan ip) (drain plan k8s_name >> upgrade_node plan name ip k8s_name)
        (start plan k8s_name) net h (timer_stop-ok plan ip net h)
      ∙ ap
          (λ b.
            ((if b
                  then InFlight.pure tt
                  else (lift (cp_kubectl plan (drain_command plan k8s_name)) >>= λ _.
                      modify mark_drained >> modify (set_phase (text "post-drain"))))
                >> upgrade_node plan name ip k8s_name)
              (start plan k8s_name) net (timer_stop plan ip net h).1)
          d

-- For a node with a name, and unless the drain is skipped: an update whose drain succeeds prints
-- nothing if it succeeds and, if it fails, exactly one hint, which names the node and the control
-- plane's address; an update whose drain fails fails with it and prints no hint.
pub update_worker-IsHinted :
    (plan : Plan) (name ip k8s_name : Text) (net : Network) (h : History)
    → plan.skip_drain ≡ false
    → k8s_name ≢ []
    → let (r, hints, h') = update_worker plan name ip k8s_name net h in
      IsHinted plan k8s_name (drain_result plan ip k8s_name net h) r hints
unfolding update_worker finish worker_body
update_worker-IsHinted plan name ip k8s_name net h d ne =
    subst
      (λ (l : Left (Unit {0})).
        IsHinted plan k8s_name (drain_result plan ip k8s_name net h) l.result (dropped l.state))
      (sym (worker_body-after_drain plan name ip k8s_name net h d))
      (after_drain-IsHinted plan name ip k8s_name net _ _ d ne)
