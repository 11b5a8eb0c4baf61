-- ===== src/Update/Waits/Answers.antt =====
-- What the waits tell of the answers they got.
use hummingbird_k8s.Base.{
  ℕ, ◌<◌, false, List, [], ◌∷◌, ◌≡◌, refl, sym, ap, ◌∙◌, Option, none, some, Result, ok, err,
}
use hummingbird_k8s.Text.{Text, text, lines}
use hummingbird_k8s.Ssh.Options.{SshOptions}
use hummingbird_k8s.Ssh.Errors.{Error, RunOutput}
use hummingbird_k8s.Update.Plan.{Plan}
use hummingbird_k8s.Update.Net.{
  Network, History, Failure, ran, resume_with, ◌>>=◌, pure, bail, run, attempt, no_ssh_back,
  daemonsets_unready,
}
use hummingbird_k8s.Update.Kubectl.{cp_kubectl}
use hummingbird_k8s.Update.Waits.Poll.{poll, answered, or_fail, probe_up, wait_ssh_back_with}
use hummingbird_k8s.Update.Waits.Gates.{
  wait_new_ready, new_unready, or_default, collect_unready_names, difference, when_empty,
  raw_command,
}
use hummingbird_k8s.Update.Waits.Bounds.{poll-found, poll-first}

-- The last thing that happened is a command that was answered.
pub record EndsAnswered (opts : SshOptions) (command : Text) (net : Network) (h : History)
    : Type 0 where
  pub before : History
  pub output : RunOutput
  pub answer : net before opts command ≡ ok output
  pub last : h ≡ ran opts command ∷ before

probe_up-EndsAnswered :
    (exec : SshOptions) (net : Network) (h0 h' : History) (a : Unit {0})
    → probe_up exec net h0 ≡ (ok (some a), h')
    → EndsAnswered exec (text "true") net h'
unfolding probe_up ◌>>=◌ run pure answered
probe_up-EndsAnswered exec net h0 h' a e = go (net h0 exec (text "true")) refl e
  where
    go :
        (r : Result Error RunOutput)
        → net h0 exec (text "true") ≡ r
        → ◌≡◌ {A = Result Failure (Option (Unit {0})) × History}
            (ok (answered r), ran exec (text "true") ∷ h0)
            (ok (some a), h')
        → EndsAnswered exec (text "true") net h'
    go (ok out) k l = record { before = h0; output = out; answer = k; last = sym (ap (λ p. p.1) l) }
    go (err x) k l = absurd cc

-- A live wait for SSH that succeeds has just been answered.
pub wait_ssh_back_with-EndsAnswered :
    (exec : SshOptions) (ip : Text) (timeout : ℕ) (net : Network) (h h' : History)
    → wait_ssh_back_with exec ip timeout false net h ≡ (ok tt, h')
    → EndsAnswered exec (text "true") net h'
unfolding wait_ssh_back_with ◌>>=◌ poll
wait_ssh_back_with-EndsAnswered exec ip timeout net h h' e =
    go (poll timeout 5 timeout 0 (probe_up exec) net h) refl e
  where
    go :
        (p : Result Failure (Option (Unit {0})) × History)
        → poll timeout 5 timeout 0 (probe_up exec) net h ≡ p
        → resume_with net (or_fail (no_ssh_back ip timeout)) p ≡ (ok tt, h')
        → EndsAnswered exec (text "true") net h'
    go (err x, h1) k l = absurd cc
    go (ok none, h1) k l = absurd (unfold or_fail bail in cc)
    go (ok (some a), h1) k l =
        let (h0, found) = poll-found (probe_up exec) 5 timeout net timeout 0 h h1 a k in
        probe_up-EndsAnswered exec net h0 h' a
          (found ∙ unfold or_fail pure in ap (λ q. (ok (some a), q)) (ap (λ q. q.1) l))

-- A failure is read as an empty list of pods.
new_unready-err : (baseline : List Text) (e : Failure) → new_unready baseline (err e) ≡ []
unfolding new_unready or_default collect_unready_names difference lines
new_unready-err baseline e = refl

-- In the second phase of the wait for the pods, with a timeout of at least one second, a `kubectl`
-- that fails on the first call is taken for a cluster whose pods are all ready: the wait ends at
-- once and succeeds.
pub wait_new_ready-err :
    (plan : Plan) (node : Text) (baseline : List Text) (net : Network) (h : History) (e : Failure)
    → 0 < plan.timeouts.daemonset
    → (cp_kubectl plan (raw_command node) net h).0 ≡ err e
    → wait_new_ready plan node baseline net h
      ≡ (ok tt, (cp_kubectl plan (raw_command node) net h).1)
unfolding wait_new_ready ◌>>=◌
wait_new_ready-err plan node baseline net h e t k =
    ap (resume_with net (or_fail (daemonsets_unready node plan.timeouts.daemonset))) (
      poll-first
        (attempt (cp_kubectl plan (raw_command node)) >>= λ r.
          pure (when_empty (new_unready baseline r)))
        5 plan.timeouts.daemonset net plan.timeouts.daemonset h _ tt t t found)
    ∙ unfold or_fail pure in refl
  where
    found :
        (attempt (cp_kubectl plan (raw_command node)) >>= λ r.
        pure (when_empty (new_unready baseline r)))
          net h
        ≡ (ok (some tt), (cp_kubectl plan (raw_command node) net h).1)
    found =
        unfold attempt pure ◌>>=◌ in
        ap
          (λ (r : Result Failure Text). (
            ok (when_empty (new_unready baseline r)),
            (cp_kubectl plan (raw_command node) net h).1,
          ))
          k
        ∙ ap (λ (l : List Text). (ok (when_empty l), (cp_kubectl plan (raw_command node) net h).1))
            (new_unready-err baseline e)
        ∙ unfold when_empty in refl
