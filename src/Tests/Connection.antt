-- ===== src/Tests/Connection.antt =====
-- The theorems on the libvirt connection, at concrete values.
use hummingbird_k8s.Base.{
  ◌≡◌, refl, [], ◌∷◌, ◌++◌, List, ok, none, some, true, false, arith, get_elem?,
}
use hummingbird_k8s.Text
use hummingbird_k8s.Text.{Text, text, eq}
use hummingbird_k8s.Text.Numbers
use hummingbird_k8s.Virt.Guard.{reject_destructive_path}
use hummingbird_k8s.Virt.Uri.{QemuSshUri, system, remote_uri}
use hummingbird_k8s.Virt.Ipv4.{Ipv4, display_ipv4}
use hummingbird_k8s.Virt.Output.{parse_domifaddr, is_ipv4_row}
use hummingbird_k8s.Virt.Output.Address.{parse_domifaddr-first}
use hummingbird_k8s.Virt.Remote.{Client}
use hummingbird_k8s.Virt.Connection.{
  remote_rm_rf, domifaddr_command, dominfo_command, destroy_command, undefine_command,
  start_command, pool_refresh_command, net_dumpxml_command, net_info_command, ls_command,
  rm_f_command, rm_rf_command, path_exists_command, cp_reflink_command, undefine_storage_command,
  net_update_command,
}
use hummingbird_k8s.Virt.Connection.Words.{Reads, virsh_commands-Reads, path_commands-Reads}
use hummingbird_k8s.Virt.Connection.Removal.{Guarded, remote_rm_rf-Guarded}

abbrev kvm : QemuSshUri
kvm = record { user = none; host = text "kvm1"; port = none; driver = system; query = none }

abbrev silent : Client
silent sent target command = ok []

remote_rm_rf-Guarded_example :
    Guarded kvm
      (text "/var/lib/pool/a b")
      []
      (remote_rm_rf kvm (text "/var/lib/pool/a b") silent [])
      (reject_destructive_path (text "/var/lib/pool/a b"))
remote_rm_rf-Guarded_example = remote_rm_rf-Guarded kvm (text "/var/lib/pool/a b") silent []

abbrev odd_name : Text
odd_name = text "vm; rm -rf /"

virsh_commands-Reads_example :
    let on = λ (ws : List Text). text "virsh" ∷ text "-c" ∷ remote_uri kvm ∷ ws in
    Reads (
      (domifaddr_command kvm odd_name, on (text "domifaddr" ∷ odd_name ∷ []))
      ∷ (dominfo_command kvm odd_name, on (text "dominfo" ∷ odd_name ∷ []))
      ∷ (destroy_command kvm odd_name, on (text "destroy" ∷ odd_name ∷ []))
      ∷ (undefine_command kvm odd_name, on (text "undefine" ∷ text "--nvram" ∷ odd_name ∷ []))
      ∷ (start_command kvm odd_name, on (text "start" ∷ odd_name ∷ []))
      ∷ (pool_refresh_command kvm odd_name, on (text "pool-refresh" ∷ odd_name ∷ []))
      ∷ (net_dumpxml_command kvm odd_name, on (text "net-dumpxml" ∷ odd_name ∷ []))
      ∷ (net_info_command kvm odd_name, on (text "net-info" ∷ odd_name ∷ []))
      ∷ [])
virsh_commands-Reads_example = virsh_commands-Reads kvm odd_name

path_commands-Reads_example : Reads (
    (ls_command odd_name, text "ls" ∷ text "-1" ∷ text "--" ∷ odd_name ∷ [])
    ∷ (rm_f_command odd_name, text "rm" ∷ text "-f" ∷ text "--" ∷ odd_name ∷ [])
    ∷ (rm_rf_command odd_name, text "rm" ∷ text "-rf" ∷ text "--" ∷ odd_name ∷ [])
    ∷ (path_exists_command odd_name, text "test" ∷ text "-e" ∷ odd_name ∷ [])
    ∷ (
      cp_reflink_command odd_name (text "b"),
      text "cp" ∷ text "--reflink=auto" ∷ odd_name ∷ text "b" ∷ [],
    )
    ∷ (
      undefine_storage_command kvm odd_name,
      text "virsh"
          ∷ text "-c"
          ∷ remote_uri kvm
          ∷ text "undefine"
          ∷ odd_name
          ∷ text "--remove-all-storage"
          ∷ text "--nvram"
          ∷ [],
    )
    ∷ (
      net_update_command kvm (text "add") odd_name (text "b"),
      text "virsh"
          ∷ text "-c"
          ∷ remote_uri kvm
          ∷ text "net-update"
          ∷ odd_name
          ∷ text "add"
          ∷ text "ip-dhcp-host"
          ∷ text "b"
          ∷ text "--live"
          ∷ text "--config"
          ∷ [],
    )
    ∷ [])
path_commands-Reads_example = path_commands-Reads kvm odd_name (text "b")

abbrev lease : Ipv4
lease = record { first = 192; second = 168; third = 122; fourth = 47 }

abbrev header : Text
header = text " Name       MAC address          Protocol     Address"

abbrev row : Text
row = text " vnet0      52:54:00:ab:cd:ef    ipv4         192.168.122.47/24"

abbrev table : Text
table = header ++ b'\n' ∷ (row ++ b'\n' ∷ [])

table-lines : Text.lines table ≡ (header ∷ []) ++ row ∷ []
unfolding text Text.lines
table-lines = refl

header-skipped : is_ipv4_row header ≡ false
unfolding is_ipv4_row text Text.contains Text.to_ascii_lowercase
header-skipped = refl

row-found : is_ipv4_row row ≡ true
unfolding is_ipv4_row text Text.contains Text.to_ascii_lowercase
row-found = refl

row-field : get_elem? (Text.split_whitespace row) 3 ≡ some (display_ipv4 lease ++ b'/' ∷ text "24")
unfolding text Text.split_whitespace display_ipv4 Numbers.to_text Text.is_whitespace
row-field = refl

parse_domifaddr-first_example : parse_domifaddr (text "virsh") table ≡ ok (some lease)
parse_domifaddr-first_example =
    parse_domifaddr-first (text "virsh") table row (text "24") (header ∷ []) [] lease table-lines
      (header-skipped, tt) row-found row-field (omega arith, omega arith, omega arith, omega arith)
