-- ===== src/Etcd/Rotation/Completes.antt =====
-- A rotation in which every command succeeds.
use hummingbird_k8s.Base.{
  ℕ, true, false, List, [], ◌≡◌, refl, some, Result, ok, err, is_empty, ok-injective,
}
use hummingbird_k8s.Text.{Text, trim, lines, contains_char}
use hummingbird_k8s.Ssh.Errors.{RunOutput}
use hummingbird_k8s.Ssh.Errors as Ssh
use hummingbird_k8s.Etcd.Keys.{
  KeysBlock, find_aesgcm_keys_block, ends_with_newline, insert_primary_key, drop_non_primary_keys,
}
use hummingbird_k8s.Etcd.Keys.Whole.{RotatesText, rotate-RotatesText}
use hummingbird_k8s.Etcd.Names.{base64_encode, rotation_key_name}
use hummingbird_k8s.Etcd.Names.Lines.{rotation_key_name-IsLine, base64_encode-IsLine}
use hummingbird_k8s.Etcd.Site.{
  Site, History, Event, Failure, Action, resume_with, ◌>>=◌, ◌>>◌, lift, send, do_send, sleep,
  confirm,
}
use hummingbird_k8s.Etcd.Rotation.{
  fetch_event, checked_config, rotate_fetch_config, rotate_install_config, rotate_healthz,
  rotate_reencrypt, rotate_verify, new_key, drop_old_key, rotate_from, run_rotate_key,
}
use hummingbird_k8s.Etcd.Rotation.Diagram.{PathOf, verified}
use hummingbird_k8s.Etcd.Rotation.Paths.{EndsAt}
use hummingbird_k8s.Etcd.Rotation.Refines.{run_rotate_key-EndsAt}

-- The action returns the value after any history.
abbrev Returns {ℓ} : {A : Type ℓ} → Site → Action A → A → Type ℓ
Returns site m a = (h : History) → (m site h).0 ≡ ok a

module _ {ℓ κ} {A : Type ℓ} {B : Type κ} (site : Site) where
  resume-ok :
      (f : A → Action B) (p : Result Failure A × History) {a : A} {b : B}
      → p.0 ≡ ok a
      → Returns site (f a) b
      → (resume_with site f p).0 ≡ ok b
  resume-ok f (ok c, h) e k = rw (ok-injective e) (k h)
  resume-ok f (err x, h) e k = absurd cc

  >>=-ok :
      (m : Action A) (f : A → Action B) (h : History) {a : A} {b : B}
      → (m site h).0 ≡ ok a
      → Returns site (f a) b
      → ((m >>= f) site h).0 ≡ ok b
  unfolding ◌>>=◌
  >>=-ok m f h e k = resume-ok f (m site h) e k

>>-Returns {ℓ} :
    {B : Type ℓ} (site : Site) (m : Action (Unit {0})) (k : Action B) {b : B}
    → Returns site m tt
    → Returns site k b
    → Returns site (m >> k) b
unfolding ◌>>◌
>>-Returns site m k e f h = >>=-ok site m (λ _. k) h (e h) f

lift-Returns {ℓ κ} :
    {A : Type ℓ} {B : Type κ} (site : Site) (r : Result Failure A) (f : A → Action B) {a : A}
    {b : B}
    → r ≡ ok a
    → Returns site (f a) b
    → Returns site (lift r >>= f) b
lift-Returns site r f {a} e k h = >>=-ok site (lift r) f h {a = a} (unfold lift in e) k

confirm-Returns : (site : Site) (prompt : Text) → Returns site (confirm prompt true) tt
unfolding confirm
confirm-Returns site prompt h = refl

sleep-Returns : (site : Site) (n : ℕ) → Returns site (sleep n) tt
unfolding sleep
sleep-Returns site n h = refl

-- A control plane that answers every command.
module _ (site : Site) (reply : History → Event → RunOutput)
    (answers : (h : History) (e : Event) → site.respond h e ≡ ok (reply h e)) where
  do_send-Returns : (fail : Ssh.Error → Failure) (e : Event) → Returns site (do_send fail e) tt
  unfolding do_send
  do_send-Returns fail e h =
      >>=-ok site (send fail e) (λ out. lift (ok tt)) h {a = reply h e}
        (unfold send in rw (answers h e) refl) (λ h'. unfold lift in refl)

  install-Returns : (yaml : Text) → Returns site (rotate_install_config yaml) tt
  unfolding rotate_install_config
  install-Returns yaml = >>-Returns site _ _ (do_send-Returns _ _) (do_send-Returns _ _)

  drop-Returns :
      (name dual : Text) {single : Text}
      → drop_non_primary_keys dual ≡ ok single
      → Returns site (drop_old_key true name dual) tt
  unfolding drop_old_key rotate_healthz rotate_verify
  drop-Returns name dual {single} e = lift-Returns site _ _ (rw e refl) (
      >>-Returns site _ _ (confirm-Returns site _) (
        >>-Returns site _ _ (install-Returns single) (
          >>-Returns site _ _ (sleep-Returns site _)
            (>>-Returns site _ _ (do_send-Returns _ _) (do_send-Returns _ _)))))

  rotate-Returns :
      (name secret before : Text) {dual single : Text}
      → insert_primary_key before name secret ≡ ok dual
      → drop_non_primary_keys dual ≡ ok single
      → Returns site (rotate_from true name secret before) tt
  unfolding rotate_from rotate_healthz rotate_reencrypt
  rotate-Returns name secret before {dual} e d = lift-Returns site _ _ (rw e refl) (
      >>-Returns site _ _ (confirm-Returns site _) (
        >>-Returns site _ _ (install-Returns dual) (
          >>-Returns site _ _ (sleep-Returns site _) (
            >>-Returns site _ _ (do_send-Returns _ _) (
              >>-Returns site _ _ (confirm-Returns site _)
                (>>-Returns site _ _ (do_send-Returns _ _) (drop-Returns name dual d)))))))

  fetch-ok :
      is_empty (trim (reply [] fetch_event).stdout) ≡ false
      → (rotate_fetch_config site []).0 ≡ ok (reply [] fetch_event).stdout
  unfolding rotate_fetch_config
  fetch-ok filled =
      >>=-ok site (send _ fetch_event) (λ out. lift (checked_config out)) []
        {a = reply [] fetch_event} (unfold send in rw (answers [] fetch_event) refl)
        (λ h. unfold lift checked_config in rw filled refl)

  after_fetch :
      (config : Text) (bytes : List ℕ) (block : KeysBlock)
      → site.random_key_bytes ≡ some bytes
      → ends_with_newline config ≡ true
      → contains_char b'\r' config ≡ false
      → find_aesgcm_keys_block (lines config) ≡ ok block
      → Returns site (new_key >>= λ (secret, name). rotate_from true name secret config) tt
  after_fetch config bytes block random newline no_cr found h =
      >>=-ok site new_key _ h {a = (base64_encode bytes, rotation_key_name site.now_epoch_secs)}
        (unfold new_key lift in rw random refl)
        (rotate-Returns (rotation_key_name site.now_epoch_secs) (base64_encode bytes) config
          r.inserted r.dropped)
    where
      r : RotatesText (rotation_key_name site.now_epoch_secs) (base64_encode bytes) config block
      r =
          rotate-RotatesText _ _ config block (rotation_key_name-IsLine site.now_epoch_secs)
            (base64_encode-IsLine bytes) newline no_cr found

at_end :
    (site : Site) (p : Result Failure (Unit {0}) × History)
    → EndsAt site (λ _. verified) p
    → p.0 ≡ ok tt
    → PathOf site p.1 verified
at_end site (ok u, h) e is = e
at_end site (err x, h) e is = absurd cc

-- With `--yes`, on a control plane that answers every command without an error and whose
-- configuration is not blank, ends with a line feed, has no carriage returns and holds keys of the
-- aesgcm provider, a rotation for which random bytes can be read returns without an error, at the
-- end of the diagram.
pub run_rotate_key-completes :
    (site : Site) (reply : History → Event → RunOutput) (bytes : List ℕ) (block : KeysBlock)
    → ((h : History) (e : Event) → site.respond h e ≡ ok (reply h e))
    → site.random_key_bytes ≡ some bytes
    → let config = (reply [] fetch_event).stdout in
      is_empty (trim config) ≡ false
      → ends_with_newline config ≡ true
      → contains_char b'\r' config ≡ false
      → find_aesgcm_keys_block (lines config) ≡ ok block
      → ((run_rotate_key true site []).0 ≡ ok tt)
        × PathOf site (run_rotate_key true site []).1 verified
run_rotate_key-completes site reply bytes block answers random filled newline no_cr found =
    (returns, at_end site (run_rotate_key true site []) (run_rotate_key-EndsAt site true) returns)
  where
    returns : (run_rotate_key true site []).0 ≡ ok tt
    returns =
        unfold run_rotate_key confirm ◌>>◌ ◌>>=◌ in
        resume-ok site (λ before. new_key >>= λ (secret, name). rotate_from true name secret before)
          (rotate_fetch_config site []) (fetch-ok site reply answers filled)
          (after_fetch site reply answers (reply [] fetch_event).stdout bytes block random newline
            no_cr found)
