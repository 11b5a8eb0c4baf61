-- ===== src/Deploy/Cards.antt =====
-- The checks of the cards in `run` of rust/crates/hbird-cli/src/commands/deploy_cluster.rs, before
-- anything is built.
pub mod Checked
use hummingbird_k8s.Base.{
  Option, none, some, Result, ok, err, ◌>>=◌, ◌>>◌, wrap_error, if◌then◌else◌,
}
use hummingbird_k8s.Text.{Text, text}
use hummingbird_k8s.Deploy.Plan.{Plan}
use hummingbird_k8s.Deploy.Macs.{PrimaryMacs, MacError, resolve_primary_macs}
use hummingbird_k8s.Deploy.Cidr.{is_valid_cidr}
use hummingbird_k8s.Deploy.Network.{NetError, Nets, nonempty, validate_extra_network}

pub data CardError : Type 0 where
  of_macs : MacError → CardError
  malformed_range : Text → Text → CardError
  of_nets : NetError → CardError

pub record Cards : Type 0 where
  pub macs : PrimaryMacs
  pub nets : Option Nets

unfoldable pub check_range : Text → Option Text → Result CardError (Unit {0})
check_range knob none = ok tt
check_range knob (some v) = if is_valid_cidr v then ok tt else err (malformed_range knob v)

unfoldable pub check_second : Plan → PrimaryMacs → Result CardError Cards
check_second p macs =
    check_range (text "POD_CIDR") (nonempty p.pod_cidr)
    >> check_range (text "SERVICE_CIDR") (nonempty p.service_cidr)
    >> wrap_error of_nets (validate_extra_network p macs)
    >>= λ nets. ok (record { macs = macs; nets = nets })

unfoldable pub check_cards : Plan → Result CardError Cards
check_cards p =
    wrap_error of_macs (resolve_primary_macs p.cp_name p.cp_mac p.worker_names p.worker_macs)
    >>= check_second p
