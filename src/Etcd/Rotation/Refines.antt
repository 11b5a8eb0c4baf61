-- ===== src/Etcd/Rotation/Refines.antt =====
-- The runs of `run_rotate_key` in the diagram.
use hummingbird_k8s.Base.{
  ℕ, Bool, true, false, List, [], ◌≡◌, ap, Result, ok, err, if◌then◌else◌, ok-injective, is_empty,
}
use hummingbird_k8s.Text.{Text, trim}
use hummingbird_k8s.Ssh.Errors.{RunOutput}
use hummingbird_k8s.Etcd.Keys as Keys
use hummingbird_k8s.Etcd.Keys.{insert_primary_key, drop_non_primary_keys}
use hummingbird_k8s.Etcd.Names.{base64_encode, rotation_key_name}
use hummingbird_k8s.Etcd.Site.{Site, History, Failure, lift, empty_config}
use hummingbird_k8s.Etcd.Rotation.{
  fetch_event, upload_event, install_event, warmup_secs, checked_config, rotate_fetch_config,
  rotate_install_config, rotate_healthz, rotate_reencrypt, rotate_verify, keys_result, bytes_result,
  new_key, drop_old_key, rotate_from, run_rotate_key,
}
use hummingbird_k8s.Etcd.Rotation.Diagram.{
  Phase, untouched, fetched, dual_staged, dual_active, dual_healthy, rewritten, single_staged,
  single_active, single_healthy, verified, Answered, Advances, fetches, stages_dual, installs_dual,
  finds_healthy, rewrites, stages_single, installs_single, finds_single_healthy, verifies, PathOf,
  begin, stops,
}
use hummingbird_k8s.Etcd.Rotation.Paths.{
  EndsAt, >>=-EndsAt, lift-EndsAt, >>-EndsAt, send-EndsAt, do_send-EndsAt, sleep-EndsAt,
  confirm-EndsAt,
}

keys_result-ok {ℓ} :
    {A : Type ℓ} (r : Result Keys.Error A) {a : A} → keys_result r ≡ ok a → r ≡ ok a
keys_result-ok (ok b) h = ap ok (ok-injective h)
keys_result-ok (err e) h = absurd cc

module _ (site : Site) where
  checked-EndsAt :
      (out : RunOutput) (h : History)
      → PathOf site h (fetched out.stdout)
      → EndsAt site fetched (lift (checked_config out) site h)
  unfolding lift checked_config
  checked-EndsAt out h p = go (is_empty (trim out.stdout))
    where
      go :
          (b : Bool)
          → EndsAt site fetched
              (if◌then◌else◌ {A = Result Failure Text} b (err empty_config) (ok out.stdout), h)
      go true = stops p
      go false = p

  new_key-EndsAt :
      (before : Text) (h : History)
      → PathOf site h (fetched before)
      → EndsAt site (λ _. fetched before) (new_key site h)
  unfolding new_key lift
  new_key-EndsAt before h path = go (bytes_result site.random_key_bytes)
    where
      go :
          (r : Result Failure (List ℕ))
          → EndsAt site
              (λ _. fetched before)
              (
                elim r as (λ _. Result Failure (Text × Text)) [
                  | err e ↦ err e
                  | ok bytes ↦ ok (base64_encode bytes, rotation_key_name site.now_epoch_secs)
                ],
                h,
              )
      go (err e) = stops path
      go (ok bytes) = path

  fetch-EndsAt :
      (h : History) → PathOf site h untouched → EndsAt site fetched (rotate_fetch_config site h)
  unfolding rotate_fetch_config
  fetch-EndsAt h path =
      >>=-EndsAt site (λ out. fetched out.stdout) fetched _ (λ out. lift (checked_config out)) h
        (send-EndsAt site _ fetch_event h (λ out. fetched out.stdout) path fetches) checked-EndsAt

  install-EndsAt :
      (yaml : Text) (p staged q : Phase) (h : History)
      → PathOf site h p
      → ((h' : History)
          → Answered site h' (upload_event yaml)
          → Advances site h' p (upload_event yaml) staged)
      → ((h' : History) → Answered site h' install_event → Advances site h' staged install_event q)
      → EndsAt site (λ _. q) (rotate_install_config yaml site h)
  unfolding rotate_install_config
  install-EndsAt yaml p staged q h path up over =
      >>-EndsAt site staged (λ _. q) _ _ h (do_send-EndsAt site _ _ h staged path (up h))
        (λ h' path'. do_send-EndsAt site _ _ h' q path' (over h'))

  drop-EndsAt :
      (assume_yes : Bool) (name dual : Text) (h : History)
      → PathOf site h (rewritten dual)
      → EndsAt site (λ _. verified) (drop_old_key assume_yes name dual site h)
  unfolding drop_old_key rotate_healthz rotate_verify
  drop-EndsAt assume_yes name dual h path =
      lift-EndsAt site (λ _. verified) _ _ h path
        (λ single is.
          >>-EndsAt site (rewritten dual) (λ _. verified) _ _ h
            (confirm-EndsAt site _ assume_yes h (rewritten dual) path)
            (λ h1 path1.
              >>-EndsAt site (single_active single) (λ _. verified) _ _ h1
                (install-EndsAt single (rewritten dual) (single_staged single)
                  (single_active single) h1 path1 (λ h'. stages_single (keys_result-ok _ is))
                  (λ h'. installs_single))
                (λ h2 path2.
                  >>-EndsAt site (single_active single) (λ _. verified) _ _ h2
                    (sleep-EndsAt site warmup_secs h2 (single_active single) path2)
                    (λ h3 path3.
                      >>-EndsAt site (single_healthy single) (λ _. verified) _ _ h3
                        (do_send-EndsAt site _ _ h3 (single_healthy single) path3
                          finds_single_healthy)
                        (λ h4 path4. do_send-EndsAt site _ _ h4 verified path4 (verifies name))))))

  rotate-EndsAt :
      (assume_yes : Bool) (name secret before : Text) (h : History)
      → PathOf site h (fetched before)
      → EndsAt site (λ _. verified) (rotate_from assume_yes name secret before site h)
  unfolding rotate_from rotate_healthz rotate_reencrypt
  rotate-EndsAt assume_yes name secret before h path =
      lift-EndsAt site (λ _. verified) _ _ h path
        (λ dual is.
          >>-EndsAt site (fetched before) (λ _. verified) _ _ h
            (confirm-EndsAt site _ assume_yes h (fetched before) path)
            (λ h1 path1.
              >>-EndsAt site (dual_active dual) (λ _. verified) _ _ h1
                (install-EndsAt dual (fetched before) (dual_staged dual) (dual_active dual) h1 path1
                  (λ h'. stages_dual name secret (keys_result-ok _ is)) (λ h'. installs_dual))
                (λ h2 path2.
                  >>-EndsAt site (dual_active dual) (λ _. verified) _ _ h2
                    (sleep-EndsAt site warmup_secs h2 (dual_active dual) path2)
                    (λ h3 path3.
                      >>-EndsAt site (dual_healthy dual) (λ _. verified) _ _ h3
                        (do_send-EndsAt site _ _ h3 (dual_healthy dual) path3 finds_healthy)
                        (λ h4 path4.
                          >>-EndsAt site (dual_healthy dual) (λ _. verified) _ _ h4
                            (confirm-EndsAt site _ assume_yes h4 (dual_healthy dual) path4)
                            (λ h5 path5.
                              >>-EndsAt site (rewritten dual) (λ _. verified) _ _ h5
                                (do_send-EndsAt site _ _ h5 (rewritten dual) path5 rewrites)
                                (λ h6 path6. drop-EndsAt assume_yes name dual h6 path6)))))))

-- Whatever the control plane and the operator answer, a run of `run_rotate_key` follows the diagram
-- of the rotation: the configuration with both keys is uploaded and installed first, and the one
-- without the old keys is uploaded only after the API server was healthy under the former and every
-- row was rewritten. A run that returns without an error has come to the end of the diagram; any
-- other stops in one of its phases, at the latest behind the first command that failed.
pub run_rotate_key-EndsAt :
    (site : Site) (assume_yes : Bool)
    → EndsAt site (λ _. verified) (run_rotate_key assume_yes site [])
unfolding run_rotate_key
run_rotate_key-EndsAt site assume_yes =
    >>-EndsAt site untouched (λ _. verified) _ _ []
      (confirm-EndsAt site _ assume_yes [] untouched begin)
      (λ h1 path1.
        >>=-EndsAt site fetched (λ _. verified) rotate_fetch_config _ h1
          (fetch-EndsAt site h1 path1)
          (λ before h2 path2.
            >>=-EndsAt site (λ _. fetched before) (λ _. verified) new_key _ h2
              (new_key-EndsAt site before h2 path2)
              (λ key h3 path3. rotate-EndsAt site assume_yes key.1 key.0 before h3 path3)))
