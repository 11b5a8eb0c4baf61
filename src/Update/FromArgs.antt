-- ===== src/Update/FromArgs.antt =====
-- `Plan::from_args` of rust/crates/hbird-cli/src/commands/update_cluster.rs.
pub mod Addresses
pub mod Maps
pub mod Ips
pub mod Accepted
pub mod Runs
use hummingbird_k8s.Base.{
  ℕ, zero, suc, Bool, true, false, not, ◌&&◌, ◌||◌, List, [], ◌∷◌, ◌++◌, ◌==◌, ltb, Option, none,
  some, Result, ok, err, ◌>>=◌, ◌>>◌, ok_or, if◌then◌else◌, is_empty, any, length,
}
use hummingbird_k8s.Text.{Text, text, eq, split, split_once}
use hummingbird_k8s.Config.Build.{ClusterConfig, resolved_worker_names}
use hummingbird_k8s.Virt.Uri.{QemuSshUri, system}
use hummingbird_k8s.Virt.Ipv4.{Ipv4, display_ipv4}
use hummingbird_k8s.Virt.Remote.{Client, Sent, Failure}
use hummingbird_k8s.Virt.Connection.{domifaddr}
use hummingbird_k8s.Update.Plan.{Plan, Timeouts, NameMap, get}
use hummingbird_k8s.Update.FromArgs.Addresses.{
  Args, PlanError, filled, or_else, connection_uri, place, lease_result, Asking, resolve_domain_ip,
  insert, insert_all, insert_zip, next_lookup, resolve_workers, resolve_cp, worker_map, placeholder,
  with_cp, after_cp, resolve_ips, is_some, unwrap_or, workers_only_and_node, node_and_start_from,
  parallel_not_positive, different_lengths, no_lease, lookup_failed, unknown_start_from,
  empty_override, no_equals_sign, empty_domain, empty_node, unknown_domain,
}

unfoldable pub check_flags : Args → Result PlanError ℕ
check_flags args =
    let parallel = unwrap_or args.parallel 1 in
    if args.workers_only && is_some args.node
    then err workers_only_and_node
    else if is_some args.node && is_some args.start_from
    then err node_and_start_from
    else if ltb parallel 1
    then err (parallel_not_positive parallel)
    else ok parallel

unfoldable pub names_one : List Text → Text → Bool
names_one ws name = any (λ w. eq w name) ws

unfoldable pub check_start_from : Option Text → List Text → Result PlanError (Unit {0})
check_start_from none ws = ok tt
check_start_from (some sf) ws = if names_one ws sf then ok tt else err (unknown_start_from sf)

unfoldable pub check_pair : Text → List Text → Text → Text → Text → Result PlanError (Unit {0})
check_pair cp_name ws pair dom node =
    if is_empty dom
    then err (empty_domain pair)
    else if is_empty node
    then err (empty_node pair)
    else if eq dom cp_name || names_one ws dom
    then ok tt
    else err (unknown_domain dom)

-- One `DOMAIN=NODE`.
unfoldable pub add_pair : Text → List Text → Text → NameMap → Result PlanError NameMap
add_pair cp_name ws pair m = ok_or (split_once b'=' pair) (no_equals_sign pair) >>= λ (dom, node).
    check_pair cp_name ws pair dom node >> ok (insert dom node m)

unfoldable pub add_pairs : Text → List Text → List Text → NameMap → Result PlanError NameMap
add_pairs cp_name ws [] m = ok m
add_pairs cp_name ws (pair ∷ pairs) m =
    (if is_empty pair then ok m else add_pair cp_name ws pair m) >>= λ m'.
    add_pairs cp_name ws pairs m'

unfoldable pub parse_overrides : Text → List Text → List Text → NameMap → Result PlanError NameMap
parse_overrides cp_name ws [] m = ok m
parse_overrides cp_name ws (entry ∷ entries) m =
    (if is_empty entry then err empty_override else add_pairs cp_name ws (split b',' entry) m)
    >>= λ m'. parse_overrides cp_name ws entries m'

unfoldable pub resolve_k8s : NameMap → Text → Text
resolve_k8s overrides domain = elim (get domain overrides) [ none ↦ domain | some node ↦ node ]

unfoldable pub k8s_names : NameMap → List Text → NameMap → NameMap
k8s_names overrides [] m = m
k8s_names overrides (w ∷ ws) m = k8s_names overrides ws (insert w (resolve_k8s overrides w) m)

unfoldable pub build_plan :
    Args → ClusterConfig → Timeouts → ℕ → Text × NameMap → Result PlanError Plan
build_plan args config timeouts parallel (cp_ip, ips) =
    let ws = resolved_worker_names config in
    check_start_from args.start_from ws
    >> (parse_overrides config.cp_name ws args.node_name_override [] >>= λ overrides. ok (record {
      config_path = args.config;
      cp_name = config.cp_name;
      cp_ip = cp_ip;
      worker_names = ws;
      worker_ip_map = ips;
      worker_k8s_name_map = k8s_names overrides ws [];
      cp_k8s_name = resolve_k8s overrides config.cp_name;
      workers_only = args.workers_only;
      skip_drain = args.skip_drain;
      skip_gates = args.skip_gates;
      dry_run = args.dry_run;
      continue_on_error = args.continue_on_error;
      no_delete_emptydir_data = args.no_delete_emptydir_data;
      node_filter = args.node;
      start_from = args.start_from;
      parallel = parallel;
      kvm_host = args.kvm_host;
      no_sudo = args.no_sudo;
      timeouts = timeouts;
    }))

abbrev pub after_ips :
    Args
    → ClusterConfig
    → Timeouts
    → ℕ
    → Result PlanError (Text × NameMap) × Sent
    → Result PlanError Plan × Sent
after_ips args config timeouts parallel (err e, sent) = (err e, sent)
after_ips args config timeouts parallel (ok ips, sent) =
    (build_plan args config timeouts parallel ips, sent)

unfoldable pub from_args : Args → ClusterConfig → Timeouts → Asking Plan
from_args args config timeouts client sent = elim (check_flags args) [
  | err e ↦ (err e, sent)
  | ok parallel ↦
      after_ips args config timeouts parallel
        (resolve_ips args config (resolved_worker_names config) client sent)
]
