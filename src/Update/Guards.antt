-- ===== src/Update/Guards.antt =====
-- What `cp_kubectl` sends, and the order in which the workers are resumed.
use mathlib.Core.Path.{subst}
use hummingbird_k8s.Base.{
  ℕ, Bool, true, false, not, List, [], ◌∷◌, ◌++◌, ◌≡◌, ◌⊎◌, inl, inr, refl, ap, sym, ◌∙◌, arith,
  Option, none, some, Result, ok, err, if◌then◌else◌, Bool-cases, Option-cases, all, any, take, All,
}
use hummingbird_k8s.Text.{Text, text, contains, eq}
use hummingbird_k8s.Ssh.Errors.{Error, RunOutput}
use hummingbird_k8s.Update.Plan.{Plan, resume, workers_to_run}
use hummingbird_k8s.Update.Net.{
  Network, History, Failure, Net, metacharacter, substitution, context, ssh_failed, ran, ◌>>=◌,
  pure, bail, run, resume_with,
}
use hummingbird_k8s.Update.Kubectl.{
  is_metacharacter, find_metacharacter, guard_command, output_or, send_kubectl, remote_kubectl,
  cp_ssh_opts, cp_kubectl_live, cp_kubectl,
}

-- A command without the characters that a shell would act on.
pub record IsPlain (command : Text) : Type 0 where
  pub no_metacharacter : all (λ c. not (is_metacharacter c)) command ≡ true
  pub no_substitution : contains (text "$(") command ≡ false

find_metacharacter-none :
    (s : Text) → find_metacharacter s ≡ none → all (λ c. not (is_metacharacter c)) s ≡ true
unfolding find_metacharacter
find_metacharacter-none [] e = refl
find_metacharacter-none (c ∷ s) e = ground (arith, find_metacharacter-none s)

guard_command-IsPlain : (command : Text) → guard_command command ≡ none → IsPlain command
unfolding guard_command
guard_command-IsPlain command e = elim (Option-cases (find_metacharacter command)) [
  | inr (c, k) ↦ absurd (found c k (contains (text "$(") command) e)
  | inl k ↦ record {
    no_metacharacter = find_metacharacter-none command k;
    no_substitution = plain (find_metacharacter command) (contains (text "$(") command) k e;
  }
]
  where
    -- The decision of the guard on what it found.
    decide : Option ℕ → Bool → Option Failure
    decide o b = elim o [
      | some bad ↦ some (metacharacter bad command)
      | none ↦ if b then some (substitution command) else none
    ]

    found :
        (c : ℕ)
        → find_metacharacter command ≡ some c
        → (b : Bool) → decide (find_metacharacter command) b ≡ none
        → ⊥
    found c k b l = absurd (clash (sym (ap (λ o. decide o b) k) ∙ l))
      where
        clash : some (metacharacter c command) ≡ none → ⊥
        clash m = cc

    plain : (o : Option ℕ) (b : Bool) → o ≡ none → decide o b ≡ none → b ≡ false
    plain (some c) b k l = absurd cc
    plain none true k l = absurd cc
    plain none false k l = refl

-- What is sent to the control plane: nothing, or one plain command.
abbrev pub Sends : Plan → Text → History → History → Type 0
Sends plan command h h' =
    (h' ≡ h)
    ⊎ (IsPlain command
        × (plan.dry_run ≡ false)
        × (h' ≡ ran (cp_ssh_opts plan) (remote_kubectl command) ∷ h))

send_kubectl-ran :
    (plan : Plan) (command : Text) (net : Network) (h : History)
    → (send_kubectl plan command net h).1 ≡ ran (cp_ssh_opts plan) (remote_kubectl command) ∷ h
unfolding send_kubectl ◌>>=◌ run
send_kubectl-ran plan command net h = go (net h (cp_ssh_opts plan) (remote_kubectl command))
  where
    go :
        (r : Result Error RunOutput)
        → (resume_with net
            (λ (out : RunOutput). pure out.stdout)
            (output_or
              (λ e.
                context
                  (text "cp_kubectl: ssh-run failed for `kubectl ... "
                    ++ command
                    ++ text "` against "
                    ++ plan.cp_ip)
                  (ssh_failed e))
              r
              net
              (ran (cp_ssh_opts plan) (remote_kubectl command) ∷ h))).1
          ≡ ran (cp_ssh_opts plan) (remote_kubectl command) ∷ h
    go (ok out) = unfold output_or pure in refl
    go (err e) = unfold output_or bail in refl

cp_kubectl_live-Sends :
    (plan : Plan) (command : Text) (net : Network) (h : History)
    → plan.dry_run ≡ false
    → Sends plan command h (cp_kubectl_live plan command net h).1
unfolding cp_kubectl_live
cp_kubectl_live-Sends plan command net h d =
    go (guard_command command) (guard_command-IsPlain command)
  where
    go :
        (o : Option Failure)
        → (o ≡ none → IsPlain command)
        → Sends plan command h
            ((elim o as (λ _. Net Text) [ some e ↦ bail e | none ↦ send_kubectl plan command ]) net
              h).1
    go (some e) k = inl (unfold bail in refl)
    go none k = inr (k refl, d, send_kubectl-ran plan command net h)

-- A `kubectl` command is sent to the control plane at most once, as one command, only in a live run
-- and only if it holds no shell metacharacter and no `$(`; otherwise nothing is sent.
pub cp_kubectl-Sends :
    (plan : Plan) (command : Text) (net : Network) (h : History)
    → Sends plan command h (cp_kubectl plan command net h).1
unfolding cp_kubectl pure
cp_kubectl-Sends plan command net h = elim (Bool-cases plan.dry_run) [
  | inl d ↦ inl (ap (λ b. ((if b then pure [] else cp_kubectl_live plan command) net h).1) d)
  | inr d ↦
      subst
        (λ b. Sends plan command h ((if b then pure [] else cp_kubectl_live plan command) net h).1)
        (sym d) (cp_kubectl_live-Sends plan command net h d)
]

-- The workers that resume mode leaves out, and the one at which it starts.
pub record Resumes (sf : Text) (names rest : List Text) : Type 0 where
  pub skipped : List Text
  pub splits : names ≡ skipped ++ rest
  pub before : All (λ w. eq w sf ≡ false) skipped
  pub starts : any (λ w. eq w sf) (take 1 rest) ≡ true

resume-seen : (sf : Text) (names : List Text) → resume sf true names ≡ names
unfolding resume
resume-seen sf [] = refl
resume-seen sf (w ∷ ws) = ap (◌∷◌ w) (resume-seen sf ws)

-- Resuming at a worker leaves out the workers before its first entry and no other.
resume-Resumes :
    (sf : Text) (names : List Text)
    → any (λ w. eq w sf) names ≡ true
    → Resumes sf names (resume sf false names)
unfolding resume
resume-Resumes sf [] h = absurd cc
resume-Resumes sf (w ∷ ws) h = elim (Bool-cases (eq w sf)) [
  | inl e ↦
      rw (e, resume-seen sf ws)
        (record { skipped = []; splits = refl; before = tt; starts = ground (arith, e) })
  | inr e ↦
      let r = resume-Resumes sf ws (ground (arith, e, h)) in
      rw e (record {
        skipped = w ∷ r.skipped;
        splits = ap (◌∷◌ w) r.splits;
        before = (e, r.before);
        starts = r.starts;
      })
]

-- With `--start-from` a worker of the cluster, the run begins at that worker's first entry and keeps
-- all that follow, in their order.
pub workers_to_run-Resumes :
    (plan : Plan) (sf : Text)
    → plan.start_from ≡ some sf
    → any (λ w. eq w sf) plan.worker_names ≡ true
    → Resumes sf plan.worker_names (workers_to_run plan)
unfolding workers_to_run
workers_to_run-Resumes plan sf e h =
    subst
      (λ (o : Option Text).
        Resumes sf plan.worker_names
          (elim o [ none ↦ plan.worker_names | some s ↦ resume s false plan.worker_names ]))
      (sym e) (resume-Resumes sf plan.worker_names h)
