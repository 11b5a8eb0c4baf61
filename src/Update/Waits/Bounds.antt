-- ===== src/Update/Waits/Bounds.antt =====
-- How long the polling loops run and what they return.
use hummingbird_k8s.Base.{
  ℕ, zero, suc, ltb, ◌≤◌, ◌<◌, ◌+◌, ◌-◌, Bool, true, false, [], ◌∷◌, ◌≡◌, refl, sym, arith, Option,
  none, some, Result, ok, err, if◌then◌else◌, ltb→lt, lt→ltb, Bool-cases, inl, inr, ap, ◌∙◌,
}
use hummingbird_k8s.Text.{Text}
use hummingbird_k8s.Text.Numbers.{u32_max}
use hummingbird_k8s.Ssh.Options.{SshOptions}
use hummingbird_k8s.Update.Net.{
  Net, Network, History, Failure, ran, slept, resume_with, ◌>>=◌, pure, bail, run, sleep,
  no_ssh_back,
}
use hummingbird_k8s.Update.Waits.Poll.{saturating_add, poll, or_fail, probe_up, wait_ssh_back_with}

-- The seconds that the program has slept.
unfoldable pub seconds_slept : History → ℕ
seconds_slept [] = 0
seconds_slept (ran opts command ∷ h) = seconds_slept h
seconds_slept (slept n ∷ h) = n + seconds_slept h

-- The counter saturates beyond every timeout.
saturating_add-le : (a b t : ℕ) → t ≤ u32_max → t - saturating_add a b ≤ t - a - b
unfolding saturating_add
saturating_add-le a b t h = ground arith

saturating_add-covers :
    (a b t n : ℕ) → 0 < b → t ≤ u32_max → t ≤ a + suc n → t ≤ saturating_add a b + n
unfolding saturating_add
saturating_add-covers a b t n p u h = ground arith

not_below : (a t : ℕ) → t ≤ a + 0 → ltb a t ≡ false
not_below a t h = ground arith

abbrev Keeps : {A : Type 0} → Net A → Type 0
Keeps m = (net : Network) (h : History) → seconds_slept (m net h).1 ≡ seconds_slept h

-- The seconds that a loop may sleep when so many are left of its timeout.
abbrev budget : ℕ → ℕ → ℕ
budget interval zero = 0
budget interval (suc left) = left + interval

-- A pause and what is left after it stay within the budget.
round-le :
    (interval left left' after_round now before : ℕ)
    → after_round ≤ now + budget interval left'
    → now ≡ interval + before
    → left' ≤ left - interval
    → 0 < left
    → after_round ≤ before + budget interval left
round-le interval zero left' a s b h e l p = absurd (ground arith)
round-le interval (suc left) zero a s b h e l p = ground arith
round-le interval (suc left) (suc left') a s b h e l p = ground arith

round-le_of :
    (interval timeout elapsed elapsed' after_round now before start : ℕ)
    → after_round ≤ now + budget interval (timeout - elapsed')
    → now ≡ interval + before
    → ltb elapsed timeout ≡ true
    → before ≡ start
    → timeout - elapsed' ≤ timeout - elapsed - interval
    → after_round ≤ start + budget interval (timeout - elapsed)
round-le_of i t e e' a s b c h k l m n =
    round-le i (t - e) (t - e') a s c h (ground arith) n (ground (arith, ltb→lt e t l))

module _ {A : Type 0} (probe : Net (Option A)) (interval timeout : ℕ) (net : Network) where
  seconds_slept-slept :
      (h : History) → seconds_slept (slept interval ∷ h) ≡ interval + seconds_slept h
  unfolding seconds_slept
  seconds_slept-slept h = refl

  -- What a round does with the answer of its probe.
  abbrev next : ℕ → ℕ → Option A → Net (Option A)
  next n elapsed (some a) = pure (some a)
  next n elapsed none =
      sleep interval >>= λ _. poll n interval timeout (saturating_add elapsed interval) probe

  poll-step :
      (n elapsed : ℕ) (h : History)
      → ltb elapsed timeout ≡ true
      → poll (suc n) interval timeout elapsed probe net h
        ≡ resume_with net (next n elapsed) (probe net h)
  unfolding poll ◌>>=◌
  poll-step n elapsed h e = ap (λ b. (if b then probe >>= next n elapsed else pure none) net h) e

  poll-stop :
      (n elapsed : ℕ) (h : History)
      → ltb elapsed timeout ≡ false
      → poll n interval timeout elapsed probe net h ≡ (ok none, h)
  unfolding poll pure
  poll-stop zero elapsed h e = refl
  poll-stop (suc n) elapsed h e =
      ap (λ b. (if b then probe >>= next n elapsed else pure none) net h) e

  same-round :
      (n m elapsed : ℕ) (p : Result Failure (Option A) × History)
      → ((h : History)
          → poll n interval timeout (saturating_add elapsed interval) probe net h
            ≡ poll m interval timeout (saturating_add elapsed interval) probe net h)
      → resume_with net (next n elapsed) p ≡ resume_with net (next m elapsed) p
  same-round n m elapsed (err x, h) e = refl
  same-round n m elapsed (ok (some a), h) e = refl
  same-round n m elapsed (ok none, h) e = unfold ◌>>=◌ sleep in e (slept interval ∷ h)

  poll-slept :
      (n elapsed : ℕ) (h : History)
      → Keeps probe
      → 0 < interval
      → timeout ≤ u32_max
      → seconds_slept (poll n interval timeout elapsed probe net h).1
        ≤ seconds_slept h + budget interval (timeout - elapsed)
  poll-slept zero elapsed h k i t = unfold poll pure in ground arith
  poll-slept (suc n) elapsed h k i t = elim (Bool-cases (ltb elapsed timeout)) [
    | inl e ↦ rw (poll-step n elapsed h e) (
        go (probe net h) e (k net h)
          (λ h1. poll-slept n (saturating_add elapsed interval) (slept interval ∷ h1) k i t))
    | inr e ↦ rw (poll-stop (suc n) elapsed h e) (ground arith)
  ]
    where
      go :
          (p : Result Failure (Option A) × History)
          → ltb elapsed timeout ≡ true
          → seconds_slept p.1 ≡ seconds_slept h
          → ((h1 : History)
              → seconds_slept
                  (poll n interval timeout
                    (saturating_add elapsed interval)
                    probe
                    net
                    (slept interval ∷ h1)).1
                ≤ seconds_slept (slept interval ∷ h1)
                  + budget interval (timeout - saturating_add elapsed interval))
          → seconds_slept (resume_with net (next n elapsed) p).1
            ≤ seconds_slept h + budget interval (timeout - elapsed)
      go (err x, h1) e s r = ground arith
      go (ok (some a), h1) e s r = unfold pure in ground arith
      go (ok none, h1) e s r =
          unfold ◌>>=◌ sleep in
          round-le_of interval timeout elapsed (saturating_add elapsed interval) _ _ _ _ (r h1)
            (seconds_slept-slept h1) e s (saturating_add-le elapsed interval timeout t)

  -- With an interval of at least one second and a timeout that fits in 32 bits, two bounds on the
  -- rounds of a polling loop that both cover what is left of the timeout give the same result and
  -- history: a loop is not cut short.
  pub poll-enough :
      (n m elapsed : ℕ) (h : History)
      → 0 < interval
      → timeout ≤ u32_max
      → timeout ≤ elapsed + n
      → timeout ≤ elapsed + m
      → poll n interval timeout elapsed probe net h ≡ poll m interval timeout elapsed probe net h
  poll-enough zero m elapsed h i t l k =
      poll-stop zero elapsed h (not_below elapsed timeout l)
      ∙ sym (poll-stop m elapsed h (not_below elapsed timeout l))
  poll-enough (suc n) zero elapsed h i t l k =
      poll-stop (suc n) elapsed h (not_below elapsed timeout k)
      ∙ sym (poll-stop zero elapsed h (not_below elapsed timeout k))
  poll-enough (suc n) (suc m) elapsed h i t l k = elim (Bool-cases (ltb elapsed timeout)) [
    | inl e ↦
        poll-step n elapsed h e
        ∙ same-round n m elapsed (probe net h) (λ h1.
          poll-enough n m (saturating_add elapsed interval) h1 i t
            (saturating_add-covers elapsed interval timeout n i t l)
            (saturating_add-covers elapsed interval timeout m i t k))
        ∙ sym (poll-step m elapsed h e)
    | inr e ↦ poll-stop (suc n) elapsed h e ∙ sym (poll-stop (suc m) elapsed h e)
  ]

  -- A first probe that finds something ends the loop.
  pub poll-first :
      (n : ℕ) (h h1 : History) (a : A)
      → 0 < n
      → 0 < timeout
      → probe net h ≡ (ok (some a), h1)
      → poll n interval timeout 0 probe net h ≡ (ok (some a), h1)
  poll-first zero h h1 a p q e = absurd (ground arith)
  poll-first (suc n) h h1 a p q e =
      poll-step n 0 h (ground (arith, lt→ltb 0 timeout q))
      ∙ ap (resume_with net (next n 0)) e
      ∙ unfold pure in refl

  -- What the polling finds is what its last probe found.
  pub poll-found :
      (n elapsed : ℕ) (h h' : History) (a : A)
      → poll n interval timeout elapsed probe net h ≡ (ok (some a), h')
      → (h0 : History) × (probe net h0 ≡ (ok (some a), h'))
  poll-found zero elapsed h h' a e = absurd (unfold poll pure in cc)
  poll-found (suc n) elapsed h h' a e = elim (Bool-cases (ltb elapsed timeout)) [
    | inl l ↦
        go (probe net h) refl (sym (poll-step n elapsed h l) ∙ e)
          (λ h1. poll-found n (saturating_add elapsed interval) (slept interval ∷ h1) h' a)
    | inr l ↦ absurd (not_found (sym (poll-stop (suc n) elapsed h l) ∙ e))
  ]
    where
      not_found : ◌≡◌ {A = Result Failure (Option A) × History} (ok none, h) (ok (some a), h') → ⊥
      not_found l = cc

      go :
          (p : Result Failure (Option A) × History)
          → probe net h ≡ p
          → resume_with net (next n elapsed) p ≡ (ok (some a), h')
          → ((h1 : History)
              → poll n interval timeout
                  (saturating_add elapsed interval)
                  probe
                  net
                  (slept interval ∷ h1)
                ≡ (ok (some a), h')
              → (h0 : History) × (probe net h0 ≡ (ok (some a), h')))
          → (h0 : History) × (probe net h0 ≡ (ok (some a), h'))
      go (err x, h1) q l r = absurd cc
      go (ok (some b), h1) q l r = (h, q ∙ unfold pure in l)
      go (ok none, h1) q l r = r h1 (unfold ◌>>=◌ sleep in l)

probe_up-Keeps : (opts : SshOptions) → Keeps (probe_up opts)
unfolding probe_up ◌>>=◌ run pure seconds_slept
probe_up-Keeps opts net h = refl

budget-le : (timeout a s : ℕ) → a ≤ s + budget 5 (timeout - 0) → a ≤ s + (timeout + 4)
budget-le zero a s h = ground arith
budget-le (suc t) a s h = ground arith

-- If its timeout fits in 32 bits, the wait for SSH sleeps at most four seconds beyond it.
pub wait_ssh_back_with-slept :
    (exec : SshOptions) (ip : Text) (timeout : ℕ) (dry_run : Bool) (net : Network) (h : History)
    → timeout ≤ u32_max
    → seconds_slept (wait_ssh_back_with exec ip timeout dry_run net h).1
      ≤ seconds_slept h + (timeout + 4)
unfolding wait_ssh_back_with pure ◌>>=◌ poll
wait_ssh_back_with-slept exec ip timeout true net h t = ground arith
wait_ssh_back_with-slept exec ip timeout false net h t =
    go (poll timeout 5 timeout 0 (probe_up exec) net h) (
      budget-le timeout _ _ (
        poll-slept (probe_up exec) 5 timeout net timeout 0 h (probe_up-Keeps exec) (ground arith)
          t))
  where
    go :
        (p : Result Failure (Option (Unit {0})) × History)
        → seconds_slept p.1 ≤ seconds_slept h + (timeout + 4)
        → seconds_slept (resume_with net (or_fail (no_ssh_back ip timeout)) p).1
          ≤ seconds_slept h + (timeout + 4)
    go (err e, h1) k = k
    go (ok none, h1) k = unfold or_fail bail in k
    go (ok (some a), h1) k = unfold or_fail pure in k
