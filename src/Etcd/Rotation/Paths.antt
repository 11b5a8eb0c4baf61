-- ===== src/Etcd/Rotation/Paths.antt =====
-- The steps of a rotation in the diagram.
use hummingbird_k8s.Base.{
  ℕ, Bool, true, false, ◌∷◌, ◌≡◌, refl, Option, none, some, Result, ok, err, if◌then◌else◌,
}
use hummingbird_k8s.Text.{Text}
use hummingbird_k8s.Ssh.Errors.{RunOutput}
use hummingbird_k8s.Ssh.Errors as Ssh
use hummingbird_k8s.Etcd.Names.{is_affirmative}
use hummingbird_k8s.Etcd.Site.{
  Site, History, Event, asked, Failure, Action, resume_with, or_fail, ◌>>=◌, ◌>>◌, lift, send,
  do_send, sleep, confirm, judge, not_a_terminal, aborted,
}
use hummingbird_k8s.Etcd.Rotation.Diagram.{
  Phase, Answered, Advances, PathOf, asks, waits, passes, RunOf, stops, fails,
}

module _ (site : Site) where
  -- A result at a phase, or a run that ended before.
  abbrev pub EndsAt {ℓ} : {A : Type ℓ} → (A → Phase) → Result Failure A × History → Type 0
  EndsAt q (ok a, h) = PathOf site h (q a)
  EndsAt q (err e, h) = RunOf site h

  module _ {ℓ κ} {A : Type ℓ} {B : Type κ} where
    resume-EndsAt :
        (q : A → Phase) (r : B → Phase) (f : A → Action B) (p : Result Failure A × History)
        → EndsAt q p
        → ((a : A) (h : History) → PathOf site h (q a) → EndsAt r (f a site h))
        → EndsAt r (resume_with site f p)
    resume-EndsAt q r f (ok a, h) e k = k a h e
    resume-EndsAt q r f (err x, h) e k = e

    pub >>=-EndsAt :
        (q : A → Phase) (r : B → Phase) (m : Action A) (f : A → Action B) (h : History)
        → EndsAt q (m site h)
        → ((a : A) (h' : History) → PathOf site h' (q a) → EndsAt r (f a site h'))
        → EndsAt r ((m >>= f) site h)
    unfolding ◌>>=◌
    >>=-EndsAt q r m f h e k = resume-EndsAt q r f (m site h) e k

    -- A pure step stays where it is.
    pub lift-EndsAt :
        (r : B → Phase) (o : Result Failure A) (f : A → Action B) (h : History) {p : Phase}
        → PathOf site h p
        → ((a : A) → o ≡ ok a → EndsAt r (f a site h))
        → EndsAt r ((lift o >>= f) site h)
    unfolding ◌>>=◌ lift
    lift-EndsAt r (ok a) f h e k = k a refl
    lift-EndsAt r (err x) f h e k = stops e

  pub >>-EndsAt {ℓ} :
      {B : Type ℓ} (q : Phase) (r : B → Phase) (m : Action (Unit {0})) (k : Action B) (h : History)
      → EndsAt (λ _. q) (m site h)
      → ((h' : History) → PathOf site h' q → EndsAt r (k site h'))
      → EndsAt r ((m >> k) site h)
  unfolding ◌>>◌
  >>-EndsAt q r m k h e f = >>=-EndsAt (λ _. q) r m (λ _. k) h e (λ a h' e'. f h' e')

  -- A command, by the answer.
  pub send-EndsAt :
      (fail : Ssh.Error → Failure) (e : Event) (h : History) (q : RunOutput → Phase) {p : Phase}
      → PathOf site h p
      → ((out : RunOutput) → site.respond h e ≡ ok out → Advances site h p e (q out))
      → EndsAt q (send fail e site h)
  unfolding send
  send-EndsAt fail e h q path next = go (site.respond h e) refl
    where
      go :
          (r : Result Ssh.Error RunOutput) → site.respond h e ≡ r → EndsAt q (or_fail fail r, e ∷ h)
      go (ok out) is = passes path (next out is)
      go (err x) is = fails e x path is

  pub do_send-EndsAt :
      (fail : Ssh.Error → Failure) (e : Event) (h : History) (q : Phase) {p : Phase}
      → PathOf site h p
      → (Answered site h e → Advances site h p e q)
      → EndsAt (λ _. q) (do_send fail e site h)
  unfolding do_send
  do_send-EndsAt fail e h q path next =
      >>=-EndsAt (λ _. q) (λ _. q) (send fail e) (λ out. lift (ok tt)) h
        (send-EndsAt fail e h (λ _. q) path (λ out is. next (out, is)))
        (λ out h' path'. unfold lift in path')

  pub sleep-EndsAt :
      (n : ℕ) (h : History) (p : Phase) → PathOf site h p → EndsAt (λ _. p) (sleep n site h)
  unfolding sleep
  sleep-EndsAt n h p path = waits n path

  pub confirm-EndsAt :
      (prompt : Text) (assume_yes : Bool) (h : History) (p : Phase)
      → PathOf site h p
      → EndsAt (λ _. p) (confirm prompt assume_yes site h)
  unfolding confirm
  confirm-EndsAt prompt assume_yes h p path = go assume_yes site.is_terminal (site.answer h prompt)
    where
      judged : (o : Option Text) → EndsAt (λ _. p) (judge o, asked prompt ∷ h)
      judged none = stops (asks prompt path)
      judged (some line) = by_answer (is_affirmative line)
        where
          by_answer :
              (b : Bool)
              → EndsAt
                  (λ _. p)
                  (
                    if◌then◌else◌ {A = Result Failure (Unit {0})} b (ok tt) (err aborted),
                    asked prompt ∷ h,
                  )
          by_answer true = asks prompt path
          by_answer false = stops (asks prompt path)

      go :
          (b c : Bool) (o : Option Text)
          → EndsAt
              (λ _. p)
              (if◌then◌else◌ {A = Result Failure (Unit {0}) × History} b
                (ok tt, h)
                (if c then (judge o, asked prompt ∷ h) else (err (not_a_terminal prompt), h)))
      go true c o = path
      go false true o = judged o
      go false false o = stops path
