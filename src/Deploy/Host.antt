-- ===== src/Deploy/Host.antt =====
-- The libvirt networks of a deployment in rust/crates/hbird-cli/src/commands/deploy_cluster.rs:
-- DHCP reservations, the probe of the second cards' network, and what cloud-init is given for it.
-- The log lines of `ensure_dhcp_reservation` are its result here.
pub mod Ready
use hummingbird_k8s.Base.{
  ℕ, zero, suc, ◌-◌, ◌+◌, ltb, Bool, true, false, List, [], ◌∷◌, ◌++◌, Option, none, some, Result,
  ok, err, if◌then◌else◌, length,
}
use hummingbird_k8s.Text.{
  Text, text, eq, contains, starts_with, strip_prefix, lines, trim, to_ascii_lowercase,
}
use hummingbird_k8s.Virt.Uri.{QemuSshUri}
use hummingbird_k8s.Virt.Remote.{Client, Sent, Failure}
use hummingbird_k8s.Virt.Connection.{net_dumpxml, net_info, net_update_add_ip_dhcp_host}
use hummingbird_k8s.Deploy.Plan.{Plan}
use hummingbird_k8s.Deploy.Network.{
  NetError, undefined_network, inactive_network, too_few_functions,
}

pub data ReservationCheck : Type 0 where
  already_present : ReservationCheck
  ip_taken_by_other_mac : ReservationCheck
  absent : ReservationCheck

-- `format!("{key}='{value}'")`
unfoldable pub attribute : Text → Text → Text
attribute key value = key ++ (text "='" ++ (value ++ text "'"))

unfoldable pub classify_dhcp_reservation : Text → Text → Text → ReservationCheck
classify_dhcp_reservation net_xml mac ip =
    if contains (attribute (text "mac") (to_ascii_lowercase mac)) (to_ascii_lowercase net_xml)
    then already_present
    else if contains (attribute (text "ip") ip) net_xml
    then ip_taken_by_other_mac
    else absent

pub data Reserved : Type 0 where
  present : Reserved
  skipped : Reserved
  added : Reserved
  not_added : Reserved

unfoldable pub output_or_blank : Result Failure Text → Text
output_or_blank (ok s) = s
output_or_blank (err e) = []

unfoldable pub add_result : Result Failure (Unit {0}) → Reserved
add_result (ok u) = added
add_result (err e) = not_added

unfoldable pub reserve :
    ReservationCheck → QemuSshUri → Text → Text → Text → Text → Client → Sent → Reserved × Sent
reserve already_present uri net mac ip name client sent = (present, sent)
reserve ip_taken_by_other_mac uri net mac ip name client sent = (skipped, sent)
reserve absent uri net mac ip name client sent =
    let (r, sent') = net_update_add_ip_dhcp_host uri net mac name ip client sent in
    (add_result r, sent')

unfoldable pub ensure_dhcp_reservation :
    QemuSshUri → Text → Text → Text → Text → Client → Sent → Reserved × Sent
ensure_dhcp_reservation uri net mac ip name client sent =
    let (r, sent') = net_dumpxml uri net client sent in
    reserve (classify_dhcp_reservation (output_or_blank r) mac ip) uri net mac ip name client sent'

unfoldable pub find_active : List Text → Option Text
find_active [] = none
find_active (l ∷ ls) =
    let rest = find_active ls in
    elim (strip_prefix (text "Active:") l) [ some v ↦ some v | none ↦ rest ]

unfoldable pub says_yes : Option Text → Bool
says_yes none = false
says_yes (some v) = eq (to_ascii_lowercase (trim v)) (text "yes")

unfoldable pub net_info_reports_active : Text → Bool
net_info_reports_active info = says_yes (find_active (lines info))

-- `xml.matches(p).count()` of a text that is not empty, without overlaps: `skip` characters belong
-- to the last match.
unfoldable pub count_matches : Text → ℕ → Text → ℕ
count_matches p skip [] = 0
count_matches p (suc skip) (c ∷ s) = count_matches p skip s
count_matches p zero (c ∷ s) =
    let after = count_matches p (length p - 1) s in
    let rest = count_matches p 0 s in if starts_with p (c ∷ s) then suc after else rest

unfoldable pub hostdev_vf_count : Text → Option ℕ
hostdev_vf_count net_xml =
    if contains (text "forward mode='hostdev'") net_xml
    then some (count_matches (text "<address type='pci'") 0 net_xml)
    else none

unfoldable pub enough_functions : Text → ℕ → Option ℕ → Result NetError (Unit {0})
enough_functions net need none = ok tt
enough_functions net need (some count) =
    if ltb count need then err (too_few_functions net count need) else ok tt

unfoldable pub check_info :
    Plan
    → QemuSshUri
    → Text
    → Client
    → Result Failure Text × Sent
    → Result NetError (Unit {0}) × Sent
check_info p uri net client (err e, sent) = (err (undefined_network net), sent)
check_info p uri net client (ok info, sent) =
    let (r, sent') = net_dumpxml uri net client sent in
    if◌then◌else◌ {A = Result NetError (Unit {0}) × Sent} (net_info_reports_active info)
      (
        enough_functions net (1 + length p.worker_names) (hostdev_vf_count (output_or_blank r)),
        sent',
      )
      (err (inactive_network net), sent)

unfoldable pub check_extra_network_on_host :
    Plan → QemuSshUri → Text → Client → Sent → Result NetError (Unit {0}) × Sent
check_extra_network_on_host p uri net client sent =
    check_info p uri net client (net_info uri net client sent)

unfoldable pub render_net2_network_config : Text → Text → Text
render_net2_network_config mac ip =
    text "version: 2\nethernets:\n  primary:\n    match:\n      name: enp1s0\n    dhcp4: true\n"
    ++ (text "  net2:\n    match:\n      macaddress: \""
        ++ (mac
            ++ (text "\"\n    dhcp4: false\n    dhcp6: false\n    accept-ra: false\n"
                ++ (text "    addresses:\n      - \"" ++ (ip ++ text "\"\n")))))
