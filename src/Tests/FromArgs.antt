-- ===== src/Tests/FromArgs.antt =====
-- The theorems on the plan, at a configuration with two workers.
use hummingbird_k8s.Base.{◌≡◌, refl, [], ◌∷◌, ok, none, some, true, false, length}
use hummingbird_k8s.Text.{text, eq}
use hummingbird_k8s.Config.Build
use hummingbird_k8s.Config.Build.{ClusterConfig}
use hummingbird_k8s.Virt.Remote.{Client}
use hummingbird_k8s.Update.Plan
use hummingbird_k8s.Update.Plan.{Plan, Timeouts, workers_to_run}
use hummingbird_k8s.Update.Net.{Network}
use hummingbird_k8s.Update.Run.{fresh, walk}
use hummingbird_k8s.Update.Run.Records.{RecordsAll}
use hummingbird_k8s.Update.FromArgs
use hummingbird_k8s.Update.FromArgs.Addresses
use hummingbird_k8s.Update.FromArgs.{from_args}
use hummingbird_k8s.Update.FromArgs.Addresses.{Args}
use hummingbird_k8s.Update.FromArgs.Accepted.{Accepts, from_args-Accepts}
use hummingbird_k8s.Update.FromArgs.Runs.{from_args-walk}

abbrev timeouts : Timeouts
timeouts = record {
  drain = text "5m";
  ready = 300;
  daemonset = 300;
  apiserver = 300;
  ssh = 300;
  ssh_drop = 30;
  inter_node_sleep = 0;
  ssh_command = 3600;
}

abbrev args : Args
args = record {
  config = text "cluster.local.conf";
  kvm_host = none;
  no_sudo = false;
  workers_only = false;
  skip_drain = false;
  skip_gates = false;
  dry_run = false;
  continue_on_error = true;
  no_delete_emptydir_data = false;
  node = none;
  start_from = none;
  parallel = some 2;
  node_name_override = [];
}

abbrev config : ClusterConfig
config = record {
  cp_name = text "cp1";
  ssh_pubkey_file = text "k.pub";
  kvm_host = none;
  image_source = text "ghcr";
  ghcr_tag = text "latest";
  enable_cloud_init = 1;
  auto_update_cp = false;
  switch_to_ghcr = false;
  cp_memory = 4096;
  cp_vcpus = 2;
  worker_memory = 4096;
  worker_vcpus = 2;
  pool_dir = text "/p";
  run_verify = true;
  bootc_update_schedule = none;
  bootc_update_repo_k8s = none;
  bootc_update_repo_worker = none;
  worker_names = some (text "w1" ∷ text "w2" ∷ []);
  cp_ip = some (text "10.0.0.1");
  pod_cidr = none;
  service_cidr = none;
  worker_ips = some (text "10.0.0.2" ∷ text "10.0.0.3" ∷ []);
  cp_mac = none;
  worker_macs = none;
  extra_network = none;
  extra_net_cp_mac = none;
  extra_net_cp_ip = none;
  extra_net_worker_macs = none;
  extra_net_worker_ips = none;
  warnings = [];
}

abbrev silent : Client
silent sent target command = ok []

from_args-Accepts_example : Accepts args config (from_args args config timeouts silent [])
from_args-Accepts_example = from_args-Accepts args config timeouts silent []

abbrev plan : Plan
plan = record {
  config_path = text "cluster.local.conf";
  cp_name = text "cp1";
  cp_ip = text "10.0.0.1";
  worker_names = text "w1" ∷ text "w2" ∷ [];
  worker_ip_map = (text "w1", text "10.0.0.2") ∷ (text "w2", text "10.0.0.3") ∷ [];
  worker_k8s_name_map = (text "w1", text "w1") ∷ (text "w2", text "w2") ∷ [];
  cp_k8s_name = text "cp1";
  workers_only = false;
  skip_drain = false;
  skip_gates = false;
  dry_run = false;
  continue_on_error = true;
  no_delete_emptydir_data = false;
  node_filter = none;
  start_from = none;
  parallel = 2;
  kvm_host = none;
  no_sudo = false;
  timeouts = timeouts;
}

plan-built : (from_args args config timeouts silent []).0 ≡ ok plan
unfolding from_args text eq FromArgs.check_flags Addresses.resolve_ips Addresses.resolve_cp
    Addresses.filled Addresses.worker_map Build.resolved_worker_names FromArgs.build_plan
    FromArgs.check_start_from FromArgs.parse_overrides Addresses.insert_zip FromArgs.k8s_names
    FromArgs.resolve_k8s Addresses.insert Plan.get
plan-built = refl

abbrev network : Network
network h opts command = ok (record { stdout = []; stderr = [] })

from_args-walk_example :
    let ws = workers_to_run plan in RecordsAll ws fresh (walk plan (length ws) ws network fresh)
from_args-walk_example =
    from_args-walk args config timeouts silent [] plan network fresh plan-built refl
