-- ===== src/Deploy/Network.antt =====
-- The second network card in rust/crates/hbird-cli/src/commands/deploy_cluster.rs: the
-- `EXTRA_NET_*` settings, and the libvirt network they name. The two arrays of the workers are
-- parallel to `worker_names`, which the code indexes with the primary cards' addresses.
pub mod Owners
pub mod Family
pub mod Cards
use hummingbird_k8s.Base.{
  ℕ, zero, suc, ◌+◌, ltb, Bool, true, false, not, ◌&&◌, ◌||◌, List, [], ◌∷◌, ◌++◌, ◌==◌, Option,
  none, some, Result, ok, err, ◌>>=◌, ◌>>◌, if◌then◌else◌, is_empty, any, length,
}
use hummingbird_k8s.Text.{Text, text, eq, split, to_ascii_lowercase}
use hummingbird_k8s.Update.Plan.{NameMap, get}
use hummingbird_k8s.Update.FromArgs.Addresses.{insert}
use hummingbird_k8s.Deploy.Plan.{Plan}
use hummingbird_k8s.Deploy.Macs.{PrimaryMacs, is_valid_mac}
use hummingbird_k8s.Deploy.Cidr.{is_valid_cidr, ip_in_cidr}

pub record Net2 : Type 0 where
  pub network : Text
  pub mac : Text
  pub ip : Text

pub data NetError : Type 0 where
  half_set : NetError
  bad_cp_mac : Text → NetError
  bad_cp_ip : Text → NetError
  mac_count : ℕ → ℕ → NetError
  ip_count : ℕ → ℕ → NetError
  bad_worker_mac : ℕ → Text → NetError
  bad_worker_ip : ℕ → Text → NetError
  duplicate_mac : Text → NetError
  primary_mac : Text → Text → NetError
  duplicate_ip : Text → NetError
  inside_range : Text → Text → Text → NetError
  undefined_network : Text → NetError
  inactive_network : Text → NetError
  too_few_functions : Text → ℕ → ℕ → NetError

-- `.as_deref().filter(|s| !s.is_empty())`
unfoldable pub nonempty : Option Text → Option Text
nonempty none = none
nonempty (some s) = if is_empty s then none else some s

unfoldable pub has_text : Option Text → Bool
has_text none = false
has_text (some s) = not (is_empty s)

unfoldable pub has_entry : Option (List Text) → Bool
has_entry none = false
has_entry (some v) = any (λ s. not (is_empty s)) v

unfoldable pub is_half_set : Plan → Bool
is_half_set p =
    has_text p.extra_net_cp_mac
    || (has_text p.extra_net_cp_ip
        || (has_entry p.extra_net_worker_macs || has_entry p.extra_net_worker_ips))

unfoldable pub or_blank : Option Text → Text
or_blank none = []
or_blank (some s) = s

unfoldable pub or_no_entries : Option (List Text) → List Text
or_no_entries none = []
or_no_entries (some v) = v

-- An early return.
unfoldable pub require : Bool → NetError → Result NetError (Unit {0})
require b e = if b then ok tt else err e

-- The two loops over the workers' entries, from index `i`.
unfoldable pub check_entries :
    (Text → Bool) → (ℕ → Text → NetError) → ℕ → List Text → Result NetError (Unit {0})
check_entries is_valid bad i [] = ok tt
check_entries is_valid bad i (m ∷ ms) =
    let rest = check_entries is_valid bad (suc i) ms in require (is_valid m) (bad i m) >> rest

-- `primary_by_mac` behind the control plane's entry.
unfoldable pub owners : List Text → List Text → NameMap → NameMap
owners (m ∷ ms) (w ∷ ws) o = owners ms ws (insert (to_ascii_lowercase m) w o)
owners _ _ o = o

unfoldable pub primary_by_mac : Plan → PrimaryMacs → NameMap
primary_by_mac p macs =
    owners macs.workers p.worker_names (insert (to_ascii_lowercase macs.cp) p.cp_name [])

unfoldable pub contains_text : Text → List Text → Bool
contains_text s seen = any (λ t. eq t s) seen

unfoldable pub owned : Text → Option Text → Result NetError (Unit {0})
owned m none = ok tt
owned m (some owner) = err (primary_mac m owner)

-- The loop over the cards' addresses; the set `seen_mac` is a list.
unfoldable pub check_macs : NameMap → List Text → List Text → Result NetError (Unit {0})
check_macs primary seen [] = ok tt
check_macs primary seen (m ∷ ms) =
    let mk = to_ascii_lowercase m in
    let rest = check_macs primary (mk ∷ seen) ms in
    require (not (contains_text mk seen)) (duplicate_mac m) >> owned m (get mk primary) >> rest

unfoldable pub first_or : Text → List Text → Text
first_or a [] = a
first_or a (p ∷ ps) = p

-- `a.split('/').next().unwrap_or(a)`
unfoldable pub bare : Text → Text
bare a = first_or a (split b'/' a)

unfoldable pub check_ips : List Text → List Text → Result NetError (Unit {0})
check_ips seen [] = ok tt
check_ips seen (a ∷ addrs) =
    let rest = check_ips (bare a ∷ seen) addrs in
    require (not (contains_text (bare a) seen)) (duplicate_ip (bare a)) >> rest

unfoldable pub outside : Text → Text → Option Text → Result NetError (Unit {0})
outside addr range_name none = ok tt
outside addr range_name (some range) =
    require (not (ip_in_cidr addr range)) (inside_range addr range_name range)

unfoldable pub check_ranges : Option Text → Option Text → List Text → Result NetError (Unit {0})
check_ranges pods services [] = ok tt
check_ranges pods services (a ∷ addrs) =
    let rest = check_ranges pods services addrs in
    outside (bare a) (text "POD_CIDR") (nonempty pods)
    >> outside (bare a) (text "SERVICE_CIDR") (nonempty services)
    >> rest

-- `w_macs.iter().zip(w_ips.iter())`
unfoldable pub zip_nets : Text → List Text → List Text → List Net2
zip_nets net (m ∷ ms) (a ∷ addrs) =
    record { network = net; mac = m; ip = a } ∷ zip_nets net ms addrs
zip_nets net _ _ = []

pub record Nets : Type 0 where
  pub cp : Net2
  pub workers : List Net2

-- `validate_extra_network` of a plan that names the network.
unfoldable pub validate_family : Plan → PrimaryMacs → Text → Result NetError Nets
validate_family p macs net =
    let cp_mac = or_blank p.extra_net_cp_mac in
    let cp_ip = or_blank p.extra_net_cp_ip in
    let w_macs = or_no_entries p.extra_net_worker_macs in
    let w_ips = or_no_entries p.extra_net_worker_ips in
    let n = length p.worker_names in
    require (is_valid_mac cp_mac) (bad_cp_mac cp_mac)
    >> require (is_valid_cidr cp_ip) (bad_cp_ip cp_ip)
    >> require (length w_macs == n) (mac_count (length w_macs) n)
    >> require (length w_ips == n) (ip_count (length w_ips) n)
    >> check_entries is_valid_mac bad_worker_mac 0 w_macs
    >> check_entries is_valid_cidr bad_worker_ip 0 w_ips
    >> check_macs (primary_by_mac p macs) [] (cp_mac ∷ w_macs)
    >> check_ips [] (cp_ip ∷ w_ips)
    >> check_ranges p.pod_cidr p.service_cidr (cp_ip ∷ w_ips)
    >> ok (record {
      cp = record { network = net; mac = cp_mac; ip = cp_ip };
      workers = zip_nets net w_macs w_ips;
    })

unfoldable pub wrap_some : Nets → Result NetError (Option Nets)
wrap_some n = ok (some n)

unfoldable pub validate_named : Plan → PrimaryMacs → Option Text → Result NetError (Option Nets)
validate_named p macs none = if is_half_set p then err half_set else ok none
validate_named p macs (some net) = validate_family p macs net >>= wrap_some

unfoldable pub validate_extra_network : Plan → PrimaryMacs → Result NetError (Option Nets)
validate_extra_network p macs = validate_named p macs (nonempty p.extra_network)
