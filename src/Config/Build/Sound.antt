-- ===== src/Config/Build/Sound.antt =====
-- The fields of `build_config` in rust/crates/hbird-config/src/parser.rs, by their keys.
use mathlib.Core.Path.{subst}
use hummingbird_k8s.Base.{
  ℕ, true, false, List, [], ◌∷◌, ◌≡◌, refl, ap, arith, Option, none, Result, ok, err, >>=-eq-ok,
  ok-injective, if◌then◌else◌,
}
use hummingbird_k8s.Text.{Text, text, eq}
use hummingbird_k8s.Config.Data.{Error, Value, RawMap, lookup, remove}
use hummingbird_k8s.Config.Data.Map.{is_one_of, lookup-remove}
use hummingbird_k8s.Config.Build.{ClusterConfig, take_config, build_config}
use hummingbird_k8s.Config.Build.Take.{
  Taking, ◌>>=◌, pure, remaining, take, required_scalar, optional_scalar, scalar_or_default,
  u32_or_default, bool_or_default, bool_strict_or_default, optional_array, take_required_scalar,
  take_optional_scalar, take_scalar_or_default, take_u32_or_default, take_bool_or_default,
  take_bool_strict_or_default, take_optional_array,
}
use hummingbird_k8s.Config.Build.Warnings.{unknown_warnings}

-- The map with the keys removed, the last one first.
unfoldable pub without : List Text → RawMap → RawMap
without [] raw = raw
without (k ∷ ks) raw = remove k (without ks raw)

pub lookup-without :
    (ks : List Text) (j : Text) (raw : RawMap)
    → lookup j (without ks raw) ≡ (if is_one_of ks j then none else lookup j raw)
unfolding without is_one_of
lookup-without [] j raw = refl
lookup-without (k ∷ ks) j raw =
    ground (arith, lookup-without ks j raw, lookup-remove k j (without ks raw))

abbrev value_or : {A : Type 0} → A → Result Error (A × RawMap) → A
value_or a (ok (b, raw)) = b
value_or a (err e) = a

-- Whatever the action builds from the map without the keys has the property.
record Builds {A : Type 0} (ks : List Text) (raw : RawMap) (m : Taking A) (P : A → Type 0)
    : Type 0 where
  at : (a : A) (raw' : RawMap) → m (without ks raw) ≡ ok (a, raw') → P a

-- What a field's action leaves to the rest of the block.
taken :
    {A B : Type 0} (ks : List Text) (raw : RawMap) (k : Text)
    (decide : Option (ℕ × Value) → Result Error A) (f : A → Taking B) (b : B) (raw' : RawMap)
    → (take k decide >>= f) (without ks raw) ≡ ok (b, raw')
    → (a : A) × (decide (lookup k (without ks raw)) ≡ ok a)
      × (f a (without (k ∷ ks) raw) ≡ ok (b, raw'))
unfolding ◌>>=◌ take without
taken {A} ks raw k decide f b raw' h = split (decide (lookup k (without ks raw))) refl h
  where
    split :
        (r : Result Error A)
        → decide (lookup k (without ks raw)) ≡ r
        → (take k (λ _. r) >>= f) (without ks raw) ≡ ok (b, raw')
        → (a : A) × (decide (lookup k (without ks raw)) ≡ ok a)
          × (f a (remove k (without ks raw)) ≡ ok (b, raw'))
    split (ok a) e h = (a, e, h)
    split (err x) e h = cc

module _ {A B : Type 0} {ks : List Text} {raw : RawMap} {P : B → Type 0} where
  -- A field's action, where its key has not been taken before.
  Builds-take :
      (k : Text) (decide : Option (ℕ × Value) → Result Error A) {f : A → Taking B}
      → is_one_of ks k ≡ false
      → ((a : A) → decide (lookup k raw) ≡ ok a → Builds (k ∷ ks) raw (f a) P)
      → Builds ks raw (take k decide >>= f) P
  Builds-take k decide {f} fresh rest = record {
    at = λ b raw' h.
        let (a, e, later) = taken ks raw k decide f b raw' h in
        (rest a (rw (lookup-without ks k raw, fresh) at e)).at b raw' later;
  }

-- Every key that some field reads, the last one first.
unfoldable pub known_keys : List Text
known_keys =
    text "EXTRA_NET_WORKER_IPS"
    ∷ text "EXTRA_NET_WORKER_MACS"
    ∷ text "EXTRA_NET_CP_IP"
    ∷ text "EXTRA_NET_CP_MAC"
    ∷ text "EXTRA_NETWORK"
    ∷ text "WORKER_MACS"
    ∷ text "CP_MAC"
    ∷ text "SERVICE_CIDR"
    ∷ text "POD_CIDR"
    ∷ text "WORKER_IPS"
    ∷ text "CP_IP"
    ∷ text "WORKER_NAMES"
    ∷ text "BOOTC_UPDATE_REPO_WORKER"
    ∷ text "BOOTC_UPDATE_REPO_K8S"
    ∷ text "BOOTC_UPDATE_SCHEDULE"
    ∷ text "RUN_VERIFY"
    ∷ text "POOL_DIR"
    ∷ text "WORKER_VCPUS"
    ∷ text "WORKER_MEMORY"
    ∷ text "CP_VCPUS"
    ∷ text "CP_MEMORY"
    ∷ text "SWITCH_TO_GHCR"
    ∷ text "AUTO_UPDATE_CP"
    ∷ text "ENABLE_CLOUD_INIT"
    ∷ text "GHCR_TAG"
    ∷ text "IMAGE_SOURCE"
    ∷ text "KVM_HOST"
    ∷ text "SSH_PUBKEY_FILE"
    ∷ text "CP_NAME"
    ∷ []

pub record Reads (raw : RawMap) (path : Text) (c : ClusterConfig) : Type 0 where
  pub cp_name : required_scalar (text "CP_NAME") path (lookup (text "CP_NAME") raw) ≡ ok c.cp_name
  pub ssh_pubkey_file :
      required_scalar (text "SSH_PUBKEY_FILE") path (lookup (text "SSH_PUBKEY_FILE") raw)
      ≡ ok c.ssh_pubkey_file
  pub kvm_host : optional_scalar (text "KVM_HOST") (lookup (text "KVM_HOST") raw) ≡ ok c.kvm_host
  pub image_source :
      scalar_or_default (text "IMAGE_SOURCE") (text "ghcr") (lookup (text "IMAGE_SOURCE") raw)
      ≡ ok c.image_source
  pub ghcr_tag :
      scalar_or_default (text "GHCR_TAG") (text "latest") (lookup (text "GHCR_TAG") raw)
      ≡ ok c.ghcr_tag
  pub enable_cloud_init :
      u32_or_default (text "ENABLE_CLOUD_INIT") 0 (lookup (text "ENABLE_CLOUD_INIT") raw)
      ≡ ok c.enable_cloud_init
  pub auto_update_cp :
      bool_strict_or_default (text "AUTO_UPDATE_CP") true (lookup (text "AUTO_UPDATE_CP") raw)
      ≡ ok c.auto_update_cp
  pub switch_to_ghcr :
      bool_strict_or_default (text "SWITCH_TO_GHCR") true (lookup (text "SWITCH_TO_GHCR") raw)
      ≡ ok c.switch_to_ghcr
  pub cp_memory :
      u32_or_default (text "CP_MEMORY") 8192 (lookup (text "CP_MEMORY") raw) ≡ ok c.cp_memory
  pub cp_vcpus : u32_or_default (text "CP_VCPUS") 4 (lookup (text "CP_VCPUS") raw) ≡ ok c.cp_vcpus
  pub worker_memory :
      u32_or_default (text "WORKER_MEMORY") 4096 (lookup (text "WORKER_MEMORY") raw)
      ≡ ok c.worker_memory
  pub worker_vcpus :
      u32_or_default (text "WORKER_VCPUS") 2 (lookup (text "WORKER_VCPUS") raw) ≡ ok c.worker_vcpus
  pub pool_dir :
      scalar_or_default
        (text "POOL_DIR")
        (text "/var/lib/libvirt/images")
        (lookup (text "POOL_DIR") raw)
      ≡ ok c.pool_dir
  pub run_verify :
      bool_or_default (text "RUN_VERIFY") false (lookup (text "RUN_VERIFY") raw) ≡ ok c.run_verify
  pub bootc_update_schedule :
      optional_scalar (text "BOOTC_UPDATE_SCHEDULE") (lookup (text "BOOTC_UPDATE_SCHEDULE") raw)
      ≡ ok c.bootc_update_schedule
  pub bootc_update_repo_k8s :
      optional_scalar (text "BOOTC_UPDATE_REPO_K8S") (lookup (text "BOOTC_UPDATE_REPO_K8S") raw)
      ≡ ok c.bootc_update_repo_k8s
  pub bootc_update_repo_worker :
      optional_scalar
        (text "BOOTC_UPDATE_REPO_WORKER")
        (lookup (text "BOOTC_UPDATE_REPO_WORKER") raw)
      ≡ ok c.bootc_update_repo_worker
  pub worker_names :
      optional_array (text "WORKER_NAMES") (lookup (text "WORKER_NAMES") raw) ≡ ok c.worker_names
  pub cp_ip : optional_scalar (text "CP_IP") (lookup (text "CP_IP") raw) ≡ ok c.cp_ip
  pub worker_ips :
      optional_array (text "WORKER_IPS") (lookup (text "WORKER_IPS") raw) ≡ ok c.worker_ips
  pub pod_cidr : optional_scalar (text "POD_CIDR") (lookup (text "POD_CIDR") raw) ≡ ok c.pod_cidr
  pub service_cidr :
      optional_scalar (text "SERVICE_CIDR") (lookup (text "SERVICE_CIDR") raw) ≡ ok c.service_cidr
  pub cp_mac : optional_scalar (text "CP_MAC") (lookup (text "CP_MAC") raw) ≡ ok c.cp_mac
  pub worker_macs :
      optional_array (text "WORKER_MACS") (lookup (text "WORKER_MACS") raw) ≡ ok c.worker_macs
  pub extra_network :
      optional_scalar (text "EXTRA_NETWORK") (lookup (text "EXTRA_NETWORK") raw)
      ≡ ok c.extra_network
  pub extra_net_cp_mac :
      optional_scalar (text "EXTRA_NET_CP_MAC") (lookup (text "EXTRA_NET_CP_MAC") raw)
      ≡ ok c.extra_net_cp_mac
  pub extra_net_cp_ip :
      optional_scalar (text "EXTRA_NET_CP_IP") (lookup (text "EXTRA_NET_CP_IP") raw)
      ≡ ok c.extra_net_cp_ip
  pub extra_net_worker_macs :
      optional_array (text "EXTRA_NET_WORKER_MACS") (lookup (text "EXTRA_NET_WORKER_MACS") raw)
      ≡ ok c.extra_net_worker_macs
  pub extra_net_worker_ips :
      optional_array (text "EXTRA_NET_WORKER_IPS") (lookup (text "EXTRA_NET_WORKER_IPS") raw)
      ≡ ok c.extra_net_worker_ips
  pub warnings : c.warnings ≡ unknown_warnings (without known_keys raw)

-- The end of the block: what is left of the map goes into the built value.
Builds-done :
    {A : Type 0} (ks : List Text) (raw : RawMap) {P : A → Type 0} (built : RawMap → A)
    → P (built (without ks raw))
    → Builds ks raw (remaining >>= λ rest. pure (built rest)) P
unfolding ◌>>=◌ remaining pure
Builds-done ks raw {P} built h = record {
  at = λ a raw' e. subst P (ap (value_or (built (without ks raw))) e) h;
}

take_config-Reads : (raw : RawMap) (path : Text) → Builds [] raw (take_config path) (Reads raw path)
unfolding take_config take_required_scalar take_optional_scalar take_scalar_or_default
    take_u32_or_default take_bool_or_default take_bool_strict_or_default take_optional_array
    is_one_of text eq known_keys
take_config-Reads raw path = Builds-take _ _ refl λ v0 e0. Builds-take _ _ refl λ v1 e1.
    Builds-take _ _ refl λ v2 e2. Builds-take _ _ refl λ v3 e3. Builds-take _ _ refl λ v4 e4.
      Builds-take _ _ refl λ v5 e5. Builds-take _ _ refl λ v6 e6. Builds-take _ _ refl λ v7 e7.
        Builds-take _ _ refl λ v8 e8. Builds-take _ _ refl λ v9 e9. Builds-take _ _ refl λ v10 e10.
          Builds-take _ _ refl λ v11 e11. Builds-take _ _ refl λ v12 e12.
            Builds-take _ _ refl λ v13 e13. Builds-take _ _ refl λ v14 e14.
              Builds-take _ _ refl λ v15 e15. Builds-take _ _ refl λ v16 e16.
                Builds-take _ _ refl λ v17 e17. Builds-take _ _ refl λ v18 e18.
                  Builds-take _ _ refl λ v19 e19. Builds-take _ _ refl λ v20 e20.
                    Builds-take _ _ refl λ v21 e21. Builds-take _ _ refl λ v22 e22.
                      Builds-take _ _ refl λ v23 e23. Builds-take _ _ refl λ v24 e24.
                        Builds-take _ _ refl λ v25 e25. Builds-take _ _ refl λ v26 e26.
                          Builds-take _ _ refl λ v27 e27. Builds-take _ _ refl λ v28 e28.
                            Builds-done _ _ _ (record {
                              cp_name = e0;
                              ssh_pubkey_file = e1;
                              kvm_host = e2;
                              image_source = e3;
                              ghcr_tag = e4;
                              enable_cloud_init = e5;
                              auto_update_cp = e6;
                              switch_to_ghcr = e7;
                              cp_memory = e8;
                              cp_vcpus = e9;
                              worker_memory = e10;
                              worker_vcpus = e11;
                              pool_dir = e12;
                              run_verify = e13;
                              bootc_update_schedule = e14;
                              bootc_update_repo_k8s = e15;
                              bootc_update_repo_worker = e16;
                              worker_names = e17;
                              cp_ip = e18;
                              worker_ips = e19;
                              pod_cidr = e20;
                              service_cidr = e21;
                              cp_mac = e22;
                              worker_macs = e23;
                              extra_network = e24;
                              extra_net_cp_mac = e25;
                              extra_net_cp_ip = e26;
                              extra_net_worker_macs = e27;
                              extra_net_worker_ips = e28;
                              warnings = refl;
                            })

-- A built configuration holds, in each field, what the field's own function reads at the field's
-- own key of the map, and warns of what is left when all known keys are removed.
pub build_config-Reads :
    (raw : RawMap) (path : Text) (c : ClusterConfig)
    → build_config raw path ≡ ok c
    → Reads raw path c
unfolding build_config without
build_config-Reads raw path c h =
    let ((b, raw'), e, k) = >>=-eq-ok (take_config path raw) _ h in
    subst (Reads raw path) (ok-injective k) ((take_config-Reads raw path).at b raw' e)
