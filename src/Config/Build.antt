-- ===== src/Config/Build.antt =====
-- rust/crates/hbird-config/src/parser.rs, from `build_config` on, and src/lib.rs: `ClusterConfig`,
-- its fields from the map of assignments, and the parser as a whole.
pub mod Take
pub mod Warnings
pub mod Ordering
pub mod Sound
pub mod Usable
use hummingbird_k8s.Base.{
  ℕ, ◌+◌, Bool, true, false, List, [], ◌∷◌, ◌++◌, Option, none, some, Result, ok, err,
  ◌>>=◌ as ◌>>?◌, if◌then◌else◌,
}
use hummingbird_k8s.Text.{Text, text}
use hummingbird_k8s.Config.Data.{Error, Warning, RawMap}
use hummingbird_k8s.Config.Tokenizer.{tokenize}
use Take.{
  ◌>>=◌, pure, remaining, take_required_scalar, take_optional_scalar, take_scalar_or_default,
  take_u32_or_default, take_bool_or_default, take_bool_strict_or_default, take_optional_array,
  Taking,
}
use Warnings.{unknown_warnings}

pub record ClusterConfig : Type 0 where
  pub cp_name : Text
  pub ssh_pubkey_file : Text
  pub kvm_host : Option Text
  pub image_source : Text
  pub ghcr_tag : Text
  pub enable_cloud_init : ℕ
  pub auto_update_cp : Bool
  pub switch_to_ghcr : Bool
  pub cp_memory : ℕ
  pub cp_vcpus : ℕ
  pub worker_memory : ℕ
  pub worker_vcpus : ℕ
  pub pool_dir : Text
  pub run_verify : Bool
  pub bootc_update_schedule : Option Text
  pub bootc_update_repo_k8s : Option Text
  pub bootc_update_repo_worker : Option Text
  pub worker_names : Option (List Text)
  pub cp_ip : Option Text
  pub pod_cidr : Option Text
  pub service_cidr : Option Text
  pub worker_ips : Option (List Text)
  pub cp_mac : Option Text
  pub worker_macs : Option (List Text)
  pub extra_network : Option Text
  pub extra_net_cp_mac : Option Text
  pub extra_net_cp_ip : Option Text
  pub extra_net_worker_macs : Option (List Text)
  pub extra_net_worker_ips : Option (List Text)
  pub warnings : List Warning

-- Every field in the order in which the source takes it out of the map; what is left then is
-- unknown.
unfoldable pub take_config : Text → Taking ClusterConfig
take_config source_path = do
  cp_name ← take_required_scalar (text "CP_NAME") source_path
  ssh_pubkey_file ← take_required_scalar (text "SSH_PUBKEY_FILE") source_path
  kvm_host ← take_optional_scalar (text "KVM_HOST")
  image_source ← take_scalar_or_default (text "IMAGE_SOURCE") (text "ghcr")
  ghcr_tag ← take_scalar_or_default (text "GHCR_TAG") (text "latest")
  enable_cloud_init ← take_u32_or_default (text "ENABLE_CLOUD_INIT") 0
  auto_update_cp ← take_bool_strict_or_default (text "AUTO_UPDATE_CP") true
  switch_to_ghcr ← take_bool_strict_or_default (text "SWITCH_TO_GHCR") true
  cp_memory ← take_u32_or_default (text "CP_MEMORY") 8192
  cp_vcpus ← take_u32_or_default (text "CP_VCPUS") 4
  worker_memory ← take_u32_or_default (text "WORKER_MEMORY") 4096
  worker_vcpus ← take_u32_or_default (text "WORKER_VCPUS") 2
  pool_dir ← take_scalar_or_default (text "POOL_DIR") (text "/var/lib/libvirt/images")
  run_verify ← take_bool_or_default (text "RUN_VERIFY") false
  bootc_update_schedule ← take_optional_scalar (text "BOOTC_UPDATE_SCHEDULE")
  bootc_update_repo_k8s ← take_optional_scalar (text "BOOTC_UPDATE_REPO_K8S")
  bootc_update_repo_worker ← take_optional_scalar (text "BOOTC_UPDATE_REPO_WORKER")
  worker_names ← take_optional_array (text "WORKER_NAMES")
  cp_ip ← take_optional_scalar (text "CP_IP")
  worker_ips ← take_optional_array (text "WORKER_IPS")
  pod_cidr ← take_optional_scalar (text "POD_CIDR")
  service_cidr ← take_optional_scalar (text "SERVICE_CIDR")
  cp_mac ← take_optional_scalar (text "CP_MAC")
  worker_macs ← take_optional_array (text "WORKER_MACS")
  extra_network ← take_optional_scalar (text "EXTRA_NETWORK")
  extra_net_cp_mac ← take_optional_scalar (text "EXTRA_NET_CP_MAC")
  extra_net_cp_ip ← take_optional_scalar (text "EXTRA_NET_CP_IP")
  extra_net_worker_macs ← take_optional_array (text "EXTRA_NET_WORKER_MACS")
  extra_net_worker_ips ← take_optional_array (text "EXTRA_NET_WORKER_IPS")
  raw ← remaining
  pure (record {
    cp_name = cp_name;
    ssh_pubkey_file = ssh_pubkey_file;
    kvm_host = kvm_host;
    image_source = image_source;
    ghcr_tag = ghcr_tag;
    enable_cloud_init = enable_cloud_init;
    auto_update_cp = auto_update_cp;
    switch_to_ghcr = switch_to_ghcr;
    cp_memory = cp_memory;
    cp_vcpus = cp_vcpus;
    worker_memory = worker_memory;
    worker_vcpus = worker_vcpus;
    pool_dir = pool_dir;
    run_verify = run_verify;
    bootc_update_schedule = bootc_update_schedule;
    bootc_update_repo_k8s = bootc_update_repo_k8s;
    bootc_update_repo_worker = bootc_update_repo_worker;
    worker_names = worker_names;
    cp_ip = cp_ip;
    pod_cidr = pod_cidr;
    service_cidr = service_cidr;
    worker_ips = worker_ips;
    cp_mac = cp_mac;
    worker_macs = worker_macs;
    extra_network = extra_network;
    extra_net_cp_mac = extra_net_cp_mac;
    extra_net_cp_ip = extra_net_cp_ip;
    extra_net_worker_macs = extra_net_worker_macs;
    extra_net_worker_ips = extra_net_worker_ips;
    warnings = unknown_warnings raw;
  })

unfoldable pub build_config : RawMap → Text → Result Error ClusterConfig
build_config raw source_path = take_config source_path raw >>? λ built. ok built.0

unfoldable pub parse_with_source : Text → Text → Result Error ClusterConfig
parse_with_source input source_path =
    tokenize input >>? λ assignments. build_config assignments source_path

unfoldable pub parse_str : Text → Result Error ClusterConfig
unfolding parse_with_source
parse_str input = parse_with_source input (text "<inline>")

-- `ClusterConfig::resolved_worker_names`.
unfoldable pub resolved_worker_names : ClusterConfig → List Text
resolved_worker_names c = elim c.worker_names [
  | some names ↦ names
  | none ↦ (c.cp_name ++ text "-w1") ∷ (c.cp_name ++ text "-w2") ∷ []
]
