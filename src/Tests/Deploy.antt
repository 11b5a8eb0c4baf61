-- ===== src/Tests/Deploy.antt =====
-- The network cards of a deployment with one worker.
use hummingbird_k8s.Base.{◌≡◌, refl, [], ◌∷◌, ◌↔◌, ok, none, some, false, length, ◌+◌}
use hummingbird_k8s.Text
use hummingbird_k8s.Text.Numbers
use hummingbird_k8s.Text.{text, Text}
use hummingbird_k8s.Virt.Uri.{QemuSshUri, system}
use hummingbird_k8s.Virt.Remote.{Client}
use hummingbird_k8s.Virt.Connection.{net_info}
use hummingbird_k8s.Update.Plan.{get}
use hummingbird_k8s.Update.FromArgs.Addresses
use hummingbird_k8s.Deploy.Plan.{Plan}
use hummingbird_k8s.Deploy.Sha256
use hummingbird_k8s.Deploy.Cidr
use hummingbird_k8s.Deploy.Macs
use hummingbird_k8s.Deploy.Macs.{PrimaryMacs, derive_primary_mac, resolve_primary_macs}
use hummingbird_k8s.Deploy.Network
use hummingbird_k8s.Deploy.Network.{Nets, validate_extra_network}
use hummingbird_k8s.Deploy.Cards
use hummingbird_k8s.Deploy.Cards.{Cards, check_cards}
use hummingbird_k8s.Deploy.Cards.Checked.{AllChecked, check_cards-AllChecked}
use hummingbird_k8s.Deploy.Host
use hummingbird_k8s.Deploy.Host.{
  check_extra_network_on_host, hostdev_vf_count, classify_dhcp_reservation, already_present,
}
use hummingbird_k8s.Deploy.Host.Ready.{ReadyIfKnown, check_extra_network_on_host_iff}

derived : derive_primary_mac (text "hbird-cp1") ≡ text "52:54:00:f0:1d:bd"
unfolding text derive_primary_mac Macs.mac_of_digest Macs.two_at Sha256.sha256_hex Sha256.hex8
    Sha256.hex_digit Sha256.compress_all Sha256.pad Macs.as_bytes Macs.utf8 Sha256.zeros_to
    Sha256.be_bytes Sha256.compress Sha256.add32 Sha256.rounds Sha256.schedule Sha256.be_words
    Sha256.next_word Sha256.rotate_right Sha256.round Sha256.xor3
derived = refl

abbrev plan : Plan
plan = record {
  config_path = text "cluster.local.conf";
  cp_name = text "hbird-cp1";
  worker_names = text "hbird-w1" ∷ [];
  image_source = text "ghcr";
  ghcr_tag = text "latest";
  cp_memory = 1;
  cp_vcpus = 1;
  worker_memory = 1;
  worker_vcpus = 1;
  pool_dir = text "/pool";
  run_verify = false;
  auto_update_cp = false;
  switch_to_ghcr = false;
  enable_cloud_init = 1;
  ssh_pubkey_file = text "k.pub";
  kvm_host = none;
  no_sudo = false;
  dry_run = false;
  bib = text "bib";
  podman_root = none;
  podman_runroot = none;
  storage_driver = none;
  force_rebuild = false;
  strict_cache = false;
  repo_root = text "/repo";
  bootc_update_schedule = none;
  bootc_update_repo_k8s = none;
  bootc_update_repo_worker = none;
  pod_cidr = some (text "10.244.0.0/16");
  service_cidr = some (text "10.96.0.0/12");
  cp_ip = none;
  worker_ips = none;
  cp_mac = some (text "52:54:00:00:00:01");
  worker_macs = some (text "52:54:00:00:00:02" ∷ []);
  extra_network = some (text "lan");
  extra_net_cp_mac = some (text "52:54:00:00:00:0a");
  extra_net_cp_ip = some (text "192.168.9.10/24");
  extra_net_worker_macs = some (text "52:54:00:00:00:0B" ∷ []);
  extra_net_worker_ips = some (text "192.168.9.11/24" ∷ []);
  cp_ready_retries = 1;
  cp_ready_sleep_secs = 1;
  token_ttl = text "1h";
}

abbrev macs : PrimaryMacs
macs = record { cp = text "52:54:00:00:00:01"; workers = text "52:54:00:00:00:02" ∷ [] }

abbrev nets : Nets
nets = record {
  cp = record { network = text "lan"; mac = text "52:54:00:00:00:0a"; ip = text "192.168.9.10/24" };
  workers =
      record { network = text "lan"; mac = text "52:54:00:00:00:0B"; ip = text "192.168.9.11/24" }
      ∷ [];
}

abbrev cards : Cards
cards = record { macs = macs; nets = some nets }

plan-cards : check_cards plan ≡ ok cards
unfolding check_cards Cards.check_second Cards.check_range resolve_primary_macs Macs.is_valid_mac
    Text.split Macs.or_derived text Macs.is_hex_pair Text.len Macs.is_ascii_hexdigit
    Text.is_ascii_digit Macs.resolve_from Macs.check_worker_mac Macs.configured get Text.eq
    Text.to_ascii_lowercase validate_extra_network Network.validate_named Network.nonempty
    Network.validate_family Network.require Network.or_blank Cidr.is_valid_cidr Text.split_once
    Cidr.is_octet Cidr.is_decimal_in_range Cidr.fits Cidr.ip_in_cidr Cidr.shift_in Cidr.to_u32
    Network.bare Network.check_entries Network.check_ips Network.check_macs Network.check_ranges
    Network.contains_text Network.first_or Network.or_no_entries Network.outside Network.owned
    Network.owners Network.primary_by_mac Network.wrap_some Network.zip_nets Numbers.digits_value
    Numbers.parse_uint Addresses.insert
plan-cards = refl

check_cards-AllChecked_example : AllChecked plan cards
check_cards-AllChecked_example = check_cards-AllChecked plan cards plan-cards

abbrev uri : QemuSshUri
uri = record {
  user = some (text "core");
  host = text "kvm";
  port = none;
  driver = system;
  query = none;
}

-- A host whose network is active and has no cards of its own.
abbrev client : Client
client sent target command = ok (text "Name: lan\nActive:         yes\n")

check_extra_network_on_host_iff_example :
    ((check_extra_network_on_host plan uri (text "lan") client []).0 ≡ ok tt)
    ↔ ReadyIfKnown
        (1 + length plan.worker_names)
        uri
        (text "lan")
        client
        (net_info uri (text "lan") client [])
check_extra_network_on_host_iff_example =
    check_extra_network_on_host_iff plan uri (text "lan") client []

pool-functions :
    hostdev_vf_count (text "<forward mode='hostdev'/><address type='pci'/><address type='pci'/>")
    ≡ some 2
unfolding hostdev_vf_count Text.contains text Host.count_matches
pool-functions = refl

lan-reserved :
    classify_dhcp_reservation
      (text "<host mac='52:54:00:0A:0b:0c' ip='10.0.0.5'/>")
      (text "52:54:00:0a:0B:0c")
      (text "10.0.0.6")
    ≡ already_present
unfolding classify_dhcp_reservation Text.contains Text.to_ascii_lowercase text Host.attribute
lan-reserved = refl
