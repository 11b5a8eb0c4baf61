-- ===== src/Deploy/Plan.antt =====
-- `Plan` of rust/crates/hbird-cli/src/commands/deploy_cluster.rs; a path is a text.
use hummingbird_k8s.Base.{ℕ, Bool, List, Option}
use hummingbird_k8s.Text.{Text}

pub record Plan : Type 0 where
  pub config_path : Text
  pub cp_name : Text
  pub worker_names : List Text
  pub image_source : Text
  pub ghcr_tag : Text
  pub cp_memory : ℕ
  pub cp_vcpus : ℕ
  pub worker_memory : ℕ
  pub worker_vcpus : ℕ
  pub pool_dir : Text
  pub run_verify : Bool
  pub auto_update_cp : Bool
  pub switch_to_ghcr : Bool
  pub enable_cloud_init : ℕ
  pub ssh_pubkey_file : Text
  pub kvm_host : Option Text
  pub no_sudo : Bool
  pub dry_run : Bool
  pub bib : Text
  pub podman_root : Option Text
  pub podman_runroot : Option Text
  pub storage_driver : Option Text
  pub force_rebuild : Bool
  pub strict_cache : Bool
  pub repo_root : Text
  pub bootc_update_schedule : Option Text
  pub bootc_update_repo_k8s : Option Text
  pub bootc_update_repo_worker : Option Text
  pub pod_cidr : Option Text
  pub service_cidr : Option Text
  pub cp_ip : Option Text
  pub worker_ips : Option (List Text)
  pub cp_mac : Option Text
  pub worker_macs : Option (List Text)
  pub extra_network : Option Text
  pub extra_net_cp_mac : Option Text
  pub extra_net_cp_ip : Option Text
  pub extra_net_worker_macs : Option (List Text)
  pub extra_net_worker_ips : Option (List Text)
  pub cp_ready_retries : ℕ
  pub cp_ready_sleep_secs : ℕ
  pub token_ttl : Text
