-- ===== src/Etcd/Rotation.antt =====
-- `run_rotate_key` and its stages in rust/crates/hbird-cli/src/commands/etcd.rs, from the resolved
-- plan on. The dry run, which only prints, is left out.
pub mod Diagram
pub mod Paths
pub mod Refines
pub mod Completes
use hummingbird_k8s.Base.{
  ℕ, Bool, true, false, List, [], ◌∷◌, ◌++◌, Option, none, some, Result, ok, err, if◌then◌else◌,
  is_empty,
}
use hummingbird_k8s.Text.{Text, text, trim}
use hummingbird_k8s.Ssh.Errors.{RunOutput}
use hummingbird_k8s.Ssh.Errors as Ssh
use hummingbird_k8s.Etcd.Keys as Keys
use hummingbird_k8s.Etcd.Keys.{insert_primary_key, drop_non_primary_keys}
use hummingbird_k8s.Etcd.Names.{base64_encode, rotation_key_name, shell_single_quote}
use hummingbird_k8s.Etcd.Site.{
  Site, History, Event, ran, fed, Failure, ssh_failed, empty_config, keys_failed, unhealthy,
  no_random_bytes, Action, ◌>>=◌, ◌>>◌, lift, send, do_send, sleep, confirm,
}

abbrev pub warmup_secs : ℕ
warmup_secs = 30

unfoldable pub fetch_event : Event
fetch_event = ran (text "cat /etc/kubernetes/encryption-config.yaml")

unfoldable pub checked_config : RunOutput → Result Failure Text
checked_config out = if is_empty (trim out.stdout) then err empty_config else ok out.stdout

unfoldable pub rotate_fetch_config : Action Text
rotate_fetch_config = send (ssh_failed (text "could not read the config")) fetch_event >>= λ out.
    lift (checked_config out)

unfoldable pub upload_event : Text → Event
upload_event yaml = fed (text "umask 077; cat > /etc/kubernetes/encryption-config.yaml.new") yaml

unfoldable pub install_event : Event
install_event = fed (text "bash -s") (
    text
      "set -euo pipefail\ninstall -m 0600 -o root -g root \\\n  /etc/kubernetes/encryption-config.yaml.new \\\n  /etc/kubernetes/encryption-config.yaml\nrm -f /etc/kubernetes/encryption-config.yaml.new\ntouch /etc/kubernetes/manifests/kube-apiserver.yaml\n")

unfoldable pub rotate_install_config : Text → Action (Unit {0})
rotate_install_config yaml =
    do_send (ssh_failed (text "could not upload the new config")) (upload_event yaml)
    >> do_send (ssh_failed (text "could not install the new config")) install_event

unfoldable pub healthz_event : Event
healthz_event = ran (text "KUBECONFIG=/etc/kubernetes/admin.conf kubectl get --raw=/healthz")

unfoldable pub rotate_healthz : ℕ → Action (Unit {0})
rotate_healthz stage = do_send (unhealthy stage) healthz_event

unfoldable pub reencrypt_event : Event
reencrypt_event = fed (text "bash -s") (
    text
      "set -euo pipefail\nexport KUBECONFIG=/etc/kubernetes/admin.conf\nkubectl get secrets -A -o json | kubectl replace -f -\nkubectl get configmaps -A -o json | kubectl replace -f -\n")

unfoldable pub rotate_reencrypt : Action (Unit {0})
rotate_reencrypt = do_send (ssh_failed (text "Stage 2 re-encrypt failed")) reencrypt_event

unfoldable pub verify_event : Text → Event
verify_event key_name = ran (
    text "EXPECTED_PREFIX="
    ++ (shell_single_quote (text "k8s:enc:aesgcm:v1:" ++ (key_name ++ b':' ∷ []))
        ++ text " /usr/libexec/verify-encryption.sh"))

unfoldable pub rotate_verify : Text → Action (Unit {0})
rotate_verify key_name =
    do_send (ssh_failed (text "Stage 4 verification failed")) (verify_event key_name)

abbrev pub keys_result {ℓ} : {A : Type ℓ} → Result Keys.Error A → Result Failure A
keys_result (ok a) = ok a
keys_result (err e) = err (keys_failed e)

abbrev pub bytes_result : Option (List ℕ) → Result Failure (List ℕ)
bytes_result none = err no_random_bytes
bytes_result (some bytes) = ok bytes

-- The key's secret and its name.
unfoldable pub new_key : Action (Text × Text)
new_key site =
    lift
      (elim (bytes_result site.random_key_bytes) [
        | err e ↦ err e
        | ok bytes ↦ ok (base64_encode bytes, rotation_key_name site.now_epoch_secs)
      ])
      site

-- Stages 3 and 4.
unfoldable pub drop_old_key : Bool → Text → Text → Action (Unit {0})
drop_old_key assume_yes key_name dual =
    lift (keys_result (drop_non_primary_keys dual)) >>= λ final_cfg.
    confirm (text "Proceed with Stage 3?") assume_yes
    >> (rotate_install_config final_cfg
        >> (sleep warmup_secs >> (rotate_healthz 3 >> rotate_verify key_name)))

-- From Stage 1 on.
unfoldable pub rotate_from : Bool → Text → Text → Text → Action (Unit {0})
rotate_from assume_yes key_name key_secret before =
    lift (keys_result (insert_primary_key before key_name key_secret)) >>= λ dual.
    confirm (text "Proceed with Stage 1?") assume_yes
    >> (rotate_install_config dual
        >> (sleep warmup_secs
            >> (rotate_healthz 1
                >> (confirm (text "Proceed with Stage 2?") assume_yes
                    >> (rotate_reencrypt >> drop_old_key assume_yes key_name dual)))))

unfoldable pub run_rotate_key : Bool → Action (Unit {0})
run_rotate_key assume_yes =
    confirm (text "Continue with rotation?") assume_yes
    >> (rotate_fetch_config >>= λ before.
        new_key >>= λ (secret, name). rotate_from assume_yes name secret before)
