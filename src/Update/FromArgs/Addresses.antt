-- ===== src/Update/FromArgs/Addresses.antt =====
-- The resolution of the nodes' addresses in `Plan::from_args`, with `build_connection` of
-- rust/crates/hbird-cli/src/virt_bridge.rs. The transport to the KVM host is a parameter.
use hummingbird_k8s.Base.{
  ℕ, Bool, true, false, List, [], ◌∷◌, ◌==◌, Option, none, some, Result, ok, err, if◌then◌else◌,
  is_empty, length,
}
use hummingbird_k8s.Text.{Text, text, eq}
use hummingbird_k8s.Config.Build.{ClusterConfig}
use hummingbird_k8s.Virt.Uri.{QemuSshUri, system}
use hummingbird_k8s.Virt.Ipv4.{Ipv4, display_ipv4}
use hummingbird_k8s.Virt.Remote.{Client, Sent, Failure}
use hummingbird_k8s.Virt.Connection.{domifaddr}
use hummingbird_k8s.Update.Plan.{NameMap}

pub record Args : Type 0 where
  pub config : Text
  pub kvm_host : Option Text
  pub no_sudo : Bool
  pub workers_only : Bool
  pub skip_drain : Bool
  pub skip_gates : Bool
  pub dry_run : Bool
  pub continue_on_error : Bool
  pub no_delete_emptydir_data : Bool
  pub node : Option Text
  pub start_from : Option Text
  pub parallel : Option ℕ
  pub node_name_override : List Text

-- One constructor for each message.
pub data PlanError : Type 0 where
  workers_only_and_node : PlanError
  node_and_start_from : PlanError
  parallel_not_positive : ℕ → PlanError
  different_lengths : ℕ → ℕ → PlanError
  no_lease : Text → Text → PlanError
  lookup_failed : Text → Text → Failure → PlanError
  unknown_start_from : Text → PlanError
  empty_override : PlanError
  no_equals_sign empty_domain empty_node unknown_domain : Text → PlanError

-- `.filter(|s| !s.is_empty())`
unfoldable pub filled : Option Text → Option Text
filled none = none
filled (some s) = if is_empty s then none else some s

unfoldable pub or_else : Option Text → Option Text → Option Text
or_else none o = o
or_else (some s) o = some s

-- `build_connection`: the connection's target. The transport goes to the same host.
unfoldable pub connection_uri : Option Text → QemuSshUri
connection_uri kvm_host = elim (filled kvm_host) [
  | none ↦ record {
    user = none;
    host = text "localhost";
    port = none;
    driver = system;
    query = none;
  }
  | some host ↦ record { user = none; host = host; port = none; driver = system; query = none }
]

unfoldable pub place : Option Text → Text
place none = text "this host (no KVM_HOST set)"
place (some host) = host

abbrev pub lease_result :
    Text → Text → Result Failure (Option Ipv4) × Sent → Result PlanError Text × Sent
lease_result where_ domain (ok (some ip), sent) = (ok (display_ipv4 ip), sent)
lease_result where_ domain (ok none, sent) = (err (no_lease domain where_), sent)
lease_result where_ domain (err e, sent) = (err (lookup_failed domain where_ e), sent)

-- A step of the plan that may ask the KVM host.
abbrev pub Asking {ℓ} : Type ℓ → Type ℓ
Asking A = Client → Sent → Result PlanError A × Sent

-- `resolve_domain_ip_with`, behind `resolve_domain_ip`.
unfoldable pub resolve_domain_ip : Option Text → Text → Asking Text
resolve_domain_ip kvm_host domain client sent =
    lease_result (place kvm_host) domain (domifaddr (connection_uri kvm_host) domain client sent)

-- `HashMap::insert`
unfoldable pub insert : Text → Text → NameMap → NameMap
insert k v [] = (k, v) ∷ []
insert k v ((j, w) ∷ m) = let rest = insert k v m in if eq j k then (j, v) ∷ m else (j, w) ∷ rest

unfoldable pub insert_all : List Text → Text → NameMap → NameMap
insert_all [] ip m = m
insert_all (w ∷ ws) ip m = insert_all ws ip (insert w ip m)

-- `worker_names.iter().zip(ips.iter())`
unfoldable pub insert_zip : List Text → List Text → NameMap → NameMap
insert_zip [] ips m = m
insert_zip (w ∷ ws) [] m = m
insert_zip (w ∷ ws) (ip ∷ ips) m = insert_zip ws ips (insert w ip m)

abbrev pub next_lookup :
    (Text → Asking NameMap)
    → Client
    → Result PlanError Text × Sent
    → Result PlanError NameMap × Sent
next_lookup k client (err e, sent) = (err e, sent)
next_lookup k client (ok ip, sent) = k ip client sent

-- One lookup for each worker.
unfoldable pub resolve_workers : Option Text → List Text → NameMap → Asking NameMap
resolve_workers kvm_host [] m client sent = (ok m, sent)
resolve_workers kvm_host (w ∷ ws) m client sent =
    next_lookup (λ ip. resolve_workers kvm_host ws (insert w ip m)) client
      (resolve_domain_ip kvm_host w client sent)

unfoldable pub resolve_cp : Option Text → ClusterConfig → Asking Text
resolve_cp kvm_host config client sent = elim (filled config.cp_ip) [
  | some ip ↦ (ok ip, sent)
  | none ↦ resolve_domain_ip kvm_host config.cp_name client sent
]

unfoldable pub worker_map : Option Text → ClusterConfig → List Text → Asking NameMap
worker_map kvm_host config ws client sent = elim config.worker_ips [
  | some ips ↦
      if length ips == length ws
      then (ok (insert_zip ws ips []), sent)
      else (err (different_lengths (length ips) (length ws)), sent)
  | none ↦ resolve_workers kvm_host ws [] client sent
]

unfoldable pub placeholder : Text
placeholder = text "<resolved-at-runtime>"

abbrev pub with_cp :
    Text → Result PlanError NameMap × Sent → Result PlanError (Text × NameMap) × Sent
with_cp cp_ip (err e, sent) = (err e, sent)
with_cp cp_ip (ok m, sent) = (ok (cp_ip, m), sent)

abbrev pub after_cp :
    Option Text
    → ClusterConfig
    → List Text
    → Client
    → Result PlanError Text × Sent
    → Result PlanError (Text × NameMap) × Sent
after_cp kvm_host config ws client (err e, sent) = (err e, sent)
after_cp kvm_host config ws client (ok cp_ip, sent) =
    with_cp cp_ip (worker_map kvm_host config ws client sent)

-- The addresses of the control plane and of the workers.
unfoldable pub resolve_ips : Args → ClusterConfig → List Text → Asking (Text × NameMap)
resolve_ips args config ws client sent =
    let kvm_host = filled (or_else args.kvm_host config.kvm_host) in
    if args.dry_run
    then (ok (placeholder, insert_all ws placeholder []), sent)
    else after_cp kvm_host config ws client (resolve_cp kvm_host config client sent)

abbrev pub is_some {ℓ} : {A : Type ℓ} → Option A → Bool
is_some none = false
is_some (some a) = true

abbrev pub unwrap_or : Option ℕ → ℕ → ℕ
unwrap_or none d = d
unwrap_or (some n) d = n
