-- ===== src/Virt/Connection.antt =====
-- `Connection` of rust/crates/hbird-virt/src/lib.rs: the commands it sends to the KVM host.
pub mod Words
pub mod Removal
use hummingbird_k8s.Base.{
  ℕ, Bool, true, false, List, [], ◌∷◌, ◌++◌, Option, none, some, Result, ok, err, ◌==◌,
  if◌then◌else◌,
}
use hummingbird_k8s.Text.{Text, text}
use hummingbird_k8s.Text.Numbers.{to_text}
use hummingbird_k8s.Virt.Data.{SshError, remote_exit, ssh}
use hummingbird_k8s.Virt.Uri.{QemuSshUri, remote_uri, ssh_target}
use hummingbird_k8s.Virt.Shell.{shell_quote}
use hummingbird_k8s.Virt.Guard.{Rejected, reject_destructive_path}
use hummingbird_k8s.Virt.Ipv4.{Ipv4}
use hummingbird_k8s.Virt.Output.{
  Domain, DomainInfo, entries, parse_domain_list, parse_domifaddr, parse_dominfo,
}
use hummingbird_k8s.Virt.Remote.{Action, Failure, rejected, failed, run, run_parsed, run_unit}

-- `virsh -c <uri> `, which begins most commands.
unfoldable pub virsh : QemuSshUri → Text → Text
virsh uri rest = text "virsh -c " ++ (remote_uri uri ++ b' ' ∷ rest)

unfoldable pub domains_command : QemuSshUri → Text
domains_command uri = virsh uri (text "list --all --name")

unfoldable pub domains : QemuSshUri → Action (List Domain)
domains uri = run_parsed uri (domains_command uri) (λ out. ok (parse_domain_list out))

unfoldable pub running_domains_command : QemuSshUri → Text
running_domains_command uri = virsh uri (text "list --name")

unfoldable pub running_domains : QemuSshUri → Action (List Domain)
running_domains uri =
    run_parsed uri (running_domains_command uri) (λ out. ok (parse_domain_list out))

unfoldable pub domifaddr_command : QemuSshUri → Text → Text
domifaddr_command uri domain = virsh uri (text "domifaddr " ++ shell_quote domain)

unfoldable pub domifaddr : QemuSshUri → Text → Action (Option Ipv4)
domifaddr uri domain =
    run_parsed uri (domifaddr_command uri domain) (parse_domifaddr (domifaddr_command uri domain))

unfoldable pub dominfo_command : QemuSshUri → Text → Text
dominfo_command uri domain = virsh uri (text "dominfo " ++ shell_quote domain)

unfoldable pub dominfo : QemuSshUri → Text → Action DomainInfo
dominfo uri domain =
    run_parsed uri (dominfo_command uri domain) (parse_dominfo (dominfo_command uri domain))

unfoldable pub destroy_command : QemuSshUri → Text → Text
destroy_command uri domain = virsh uri (text "destroy " ++ shell_quote domain)

unfoldable pub destroy_domain : QemuSshUri → Text → Action (Unit {0})
destroy_domain uri domain = run_unit uri (destroy_command uri domain)

unfoldable pub undefine_command : QemuSshUri → Text → Text
undefine_command uri domain = virsh uri (text "undefine --nvram " ++ shell_quote domain)

unfoldable pub undefine_domain : QemuSshUri → Text → Action (Unit {0})
undefine_domain uri domain = run_unit uri (undefine_command uri domain)

unfoldable pub undefine_storage_command : QemuSshUri → Text → Text
undefine_storage_command uri domain =
    virsh uri (text "undefine " ++ (shell_quote domain ++ text " --remove-all-storage --nvram"))

unfoldable pub undefine_domain_remove_all_storage : QemuSshUri → Text → Action (Unit {0})
undefine_domain_remove_all_storage uri domain = run_unit uri (undefine_storage_command uri domain)

unfoldable pub ls_command : Text → Text
ls_command dir = text "ls -1 -- " ++ shell_quote dir

unfoldable pub remote_ls : QemuSshUri → Text → Action (List Text)
remote_ls uri dir = run_parsed uri (ls_command dir) (λ out. ok (entries out))

unfoldable pub rm_f_command : Text → Text
rm_f_command path = text "rm -f -- " ++ shell_quote path

unfoldable pub remote_rm_f : QemuSshUri → Text → Action (Unit {0})
remote_rm_f uri path = run_unit uri (rm_f_command path)

unfoldable pub rm_rf_command : Text → Text
rm_rf_command path = text "rm -rf -- " ++ shell_quote path

abbrev pub unless_rejected : Result Rejected (Unit {0}) → Action (Unit {0}) → Action (Unit {0})
unless_rejected (err r) action client sent = (err (rejected r), sent)
unless_rejected (ok u) action client sent = action client sent

-- The guard comes first.
unfoldable pub remote_rm_rf : QemuSshUri → Text → Action (Unit {0})
remote_rm_rf uri path =
    unless_rejected (reject_destructive_path path) (run_unit uri (rm_rf_command path))

unfoldable pub path_exists_command : Text → Text
path_exists_command path = text "test -e " ++ shell_quote path

-- The exit code 1 is the answer "no", every other failure is one.
unfoldable pub exists_result : Result SshError Text → Result Failure Bool
exists_result (ok out) = ok true
exists_result (err (remote_exit host command (some code) stderr)) =
    if code == 1 then ok false else err (failed (ssh (remote_exit host command (some code) stderr)))
exists_result (err other) = err (failed (ssh other))

unfoldable pub remote_path_exists : QemuSshUri → Text → Action Bool
remote_path_exists uri path client sent =
    let command = path_exists_command path in
    (exists_result (client sent (ssh_target uri) command), (ssh_target uri, command) ∷ sent)

unfoldable pub start_command : QemuSshUri → Text → Text
start_command uri domain = virsh uri (text "start " ++ shell_quote domain)

unfoldable pub start_domain : QemuSshUri → Text → Action (Unit {0})
start_domain uri domain = run_unit uri (start_command uri domain)

unfoldable pub pool_refresh_command : QemuSshUri → Text → Text
pool_refresh_command uri pool = virsh uri (text "pool-refresh " ++ shell_quote pool)

unfoldable pub virsh_pool_refresh : QemuSshUri → Text → Action (Unit {0})
virsh_pool_refresh uri pool = run_unit uri (pool_refresh_command uri pool)

unfoldable pub cp_reflink_command : Text → Text → Text
cp_reflink_command src dst =
    text "cp --reflink=auto " ++ (shell_quote src ++ b' ' ∷ shell_quote dst)

unfoldable pub remote_cp_reflink : QemuSshUri → Text → Text → Action (Unit {0})
remote_cp_reflink uri src dst = run_unit uri (cp_reflink_command src dst)

unfoldable pub net_dumpxml_command : QemuSshUri → Text → Text
net_dumpxml_command uri network = virsh uri (text "net-dumpxml " ++ shell_quote network)

unfoldable pub net_dumpxml : QemuSshUri → Text → Action Text
net_dumpxml uri network = run uri (net_dumpxml_command uri network)

unfoldable pub net_info_command : QemuSshUri → Text → Text
net_info_command uri network = virsh uri (text "net-info " ++ shell_quote network)

unfoldable pub net_info : QemuSshUri → Text → Action Text
net_info uri network = run uri (net_info_command uri network)

unfoldable pub host_xml : Text → Text → Text → Text
host_xml mac name ip =
    text "<host mac='"
    ++ (mac ++ (text "' name='" ++ (name ++ (text "' ip='" ++ (ip ++ text "'/>")))))

-- The element is one word of the command.
unfoldable pub net_update_command : QemuSshUri → Text → Text → Text → Text
net_update_command uri verb network xml = virsh uri (
    text "net-update "
    ++ (shell_quote network
        ++ b' '
          ∷ (verb ++ (text " ip-dhcp-host " ++ (shell_quote xml ++ text " --live --config")))))

unfoldable pub net_update_add_ip_dhcp_host :
    QemuSshUri → Text → Text → Text → Text → Action (Unit {0})
net_update_add_ip_dhcp_host uri network mac name ip =
    run_unit uri (net_update_command uri (text "add") network (host_xml mac name ip))

unfoldable pub net_update_delete_ip_dhcp_host : QemuSshUri → Text → Text → Action (Unit {0})
net_update_delete_ip_dhcp_host uri network xml =
    run_unit uri (net_update_command uri (text "delete") network xml)
