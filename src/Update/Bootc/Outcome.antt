-- ===== src/Update/Bootc/Outcome.antt =====
-- When `bootc upgrade` counts as having found nothing new.
use hummingbird_k8s.Base.{
  Bool, true, false, ◌==◌, [], ◌∷◌, ◌≡◌, ◌≢◌, refl, sym, ap, ◌∙◌, none, some, Result, ok, err,
  if◌then◌else◌, ok-injective,
}
use hummingbird_k8s.Text.{Text, eq}
use hummingbird_k8s.Text.Equality.{eq_iff}
use hummingbird_k8s.Ssh.Options.{SshOptions}
use hummingbird_k8s.Ssh.Errors
use hummingbird_k8s.Ssh.Errors.{Error, RunOutput}
use hummingbird_k8s.Update.Net.{Net, Network, History, Failure, resume_with, ◌>>=◌, pure, bail}
use hummingbird_k8s.Update.Bootc.{
  bootc_booted_digest_with_exec, bootc_has_apply_with_exec, upgrade_command, compare_digests,
  classify, BootcUpgradeOutcome, applied, already_current, bootc_upgrade_apply_with_exec,
}
use hummingbird_k8s.Update.Bootc

-- An action that succeeds after another one: both have succeeded.
record Through {A B : Type 0} (m : Net A) (f : A → Net B) (net : Network) (h : History) (b : B)
    (h' : History) : Type 0 where
  value : A
  middle : History
  first : m net h ≡ (ok value, middle)
  then_ok : f value net middle ≡ (ok b, h')

>>=-Through :
    {A B : Type 0} (m : Net A) (f : A → Net B) (net : Network) (h : History) (b : B) (h' : History)
    → (m >>= f) net h ≡ (ok b, h')
    → Through m f net h b h'
unfolding ◌>>=◌
>>=-Through {A} {B} m f net h b h' e = go (m net h) refl e
  where
    go :
        (p : Result Failure A × History)
        → m net h ≡ p
        → resume_with net f p ≡ (ok b, h')
        → Through m f net h b h'
    go (ok a, h1) k l = record { value = a; middle = h1; first = k; then_ok = l }
    go (err x, h1) k l = absurd cc

-- Two digests that count as the same.
compare_digests-same :
    (pre post : Text) → compare_digests pre post ≡ already_current → (pre ≢ []) × (pre ≡ post)
unfolding compare_digests
compare_digests-same [] post e = absurd cc
compare_digests-same (c ∷ s) [] e = absurd cc
compare_digests-same (c ∷ s) (d ∷ t) e =
    ((λ p. cc), (eq_iff (c ∷ s) (d ∷ t)).0 (go (eq (c ∷ s) (d ∷ t)) e))
  where
    go : (b : Bool) → (if b then already_current else applied) ≡ already_current → b ≡ true
    go true k = refl
    go false k = absurd cc

-- An upgrade that exits with an error is not one that found nothing.
exit-not_current :
    (b : Bool) (net : Network) (h h' : History)
    → pure (if b then applied else Bootc.upgrade_failed) net h ≡ (ok already_current, h')
    → ⊥
unfolding pure
exit-not_current true net h h' e = cc
exit-not_current false net h h' e = cc

-- The outcome and the history of the second digest.
pure-inv :
    (o : BootcUpgradeOutcome) (net : Network) (h h' : History)
    → pure o net h ≡ (ok already_current, h')
    → (o ≡ already_current) × (h ≡ h')
unfolding pure
pure-inv o net h h' e = (ok-injective (ap (λ p. p.0) e), ap (λ p. p.1) e)

-- The digest before the upgrade is read again after it.
pub record ReadsAgain (exec : SshOptions) (ip : Text) (net : Network) (h h' : History)
    : Type 0 where
  pub digest : Text
  pub known : digest ≢ []
  pub before : (bootc_booted_digest_with_exec exec ip net h).0 ≡ ok digest
  pub middle : History
  pub later : bootc_booted_digest_with_exec exec ip net middle ≡ (ok digest, h')

classify-same :
    (exec : SshOptions) (ip name pre : Text) (r : Result Error RunOutput) (net : Network)
    (h h' : History)
    → classify exec ip name pre r net h ≡ (ok already_current, h')
    → (pre ≢ []) × (bootc_booted_digest_with_exec exec ip net h ≡ (ok pre, h'))
unfolding classify
classify-same exec ip name pre (ok out) net h h' e =
    let t = >>=-Through (bootc_booted_digest_with_exec exec ip) _ net h already_current h' e in
    let (same, at) = pure-inv (compare_digests pre t.value) net t.middle h' t.then_ok in
    let (ne, read) = compare_digests-same pre t.value same in
    (
      ne,
      t.first ∙ ap (λ (m : History). (ok t.value, m)) at ∙ ap (λ (d : Text). (ok d, h')) (sym read),
    )
classify-same exec ip name pre (err (Errors.non_zero_exit host (some code) stdout stderr)) net h h'
      e =
    absurd (exit-not_current (code == 255) net h h' e)
classify-same exec ip name pre (err (Errors.non_zero_exit host none stdout stderr)) net h h' e =
    absurd (unfold pure in cc)
classify-same exec ip name pre (err (Errors.spawn p q)) net h h' e = absurd (unfold bail in cc)
classify-same exec ip name pre (err (Errors.wait p)) net h h' e = absurd (unfold bail in cc)
classify-same exec ip name pre (err (Errors.stdin_write p)) net h h' e = absurd (unfold bail in cc)
classify-same exec ip name pre (err (Errors.identity_file_missing p)) net h h' e =
    absurd (unfold bail in cc)
classify-same exec ip name pre (err (Errors.timeout p n)) net h h' e = absurd (unfold bail in cc)

-- A live upgrade that reports that nothing was new has read a digest before the upgrade that is not
-- empty, and has read the same digest at its end.
pub bootc_upgrade_apply_with_exec-ReadsAgain :
    (exec : SshOptions) (ip name : Text) (net : Network) (h h' : History)
    → bootc_upgrade_apply_with_exec exec ip name false net h ≡ (ok already_current, h')
    → ReadsAgain exec ip net h h'
unfolding bootc_upgrade_apply_with_exec
bootc_upgrade_apply_with_exec-ReadsAgain exec ip name net h h' e =
    let a = >>=-Through (bootc_booted_digest_with_exec exec ip) _ net h already_current h' e in
    let b =
      >>=-Through (bootc_has_apply_with_exec exec ip) _ net a.middle already_current h' a.then_ok in
    let c =
      >>=-Through (upgrade_command exec b.value) _ net b.middle already_current h' b.then_ok in
    let (ne, again) = classify-same exec ip name a.value c.value net c.middle h' c.then_ok in
    record {
      digest = a.value;
      known = ne;
      before = ap (λ p. p.0) a.first;
      middle = c.middle;
      later = again;
    }
