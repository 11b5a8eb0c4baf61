-- ===== src/Deploy/Host/Ready.antt =====
-- The probe of the second cards' network in rust/crates/hbird-cli/src/commands/deploy_cluster.rs.
use hummingbird_k8s.Base.{
  ℕ, ◌+◌, ◌≤◌, Bool, true, false, ◌≡◌, ◌↔◌, refl, arith, Option, none, some, Result, ok, err,
  length, if◌then◌else◌,
}
use hummingbird_k8s.Text.{Text}
use hummingbird_k8s.Virt.Uri.{QemuSshUri}
use hummingbird_k8s.Virt.Remote.{Client, Sent, Failure}
use hummingbird_k8s.Virt.Connection.{net_dumpxml, net_info}
use hummingbird_k8s.Deploy.Plan.{Plan}
use hummingbird_k8s.Deploy.Network.{NetError, inactive_network}
use hummingbird_k8s.Deploy.Host.{
  output_or_blank, net_info_reports_active, hostdev_vf_count, enough_functions, check_info,
  check_extra_network_on_host,
}

-- The network's definition, asked for after the answer on its state.
abbrev pub xml_after : QemuSshUri → Text → Client → Sent → Text
xml_after uri net client sent = output_or_blank (net_dumpxml uri net client sent).0

-- Active, and with a card for each of the machines if its cards are counted.
pub record IsReady (machines : ℕ) (info xml : Text) : Type 0 where
  pub active : net_info_reports_active info ≡ true
  pub enough : (n : ℕ) → hostdev_vf_count xml ≡ some n → machines ≤ n

abbrev pub ReadyIfKnown : ℕ → QemuSshUri → Text → Client → Result Failure Text × Sent → Type 0
ReadyIfKnown machines uri net client (err e, sent) = ⊥
ReadyIfKnown machines uri net client (ok info, sent) =
    IsReady machines info (xml_after uri net client sent)

enough_functions_iff :
    (net : Text) (need : ℕ) (o : Option ℕ)
    → (enough_functions net need o ≡ ok tt) ↔ ((n : ℕ) → o ≡ some n → need ≤ n)
unfolding enough_functions
enough_functions_iff net need none = (λ h n e. absurd cc, λ h. refl)
enough_functions_iff net need (some count) = (λ h n e. ground arith, λ h. within (h count refl))
  where
    within : need ≤ count → enough_functions net need (some count) ≡ ok tt
    within le = ground arith

not_active : {b : Bool} → b ≡ true → b ≡ false → ⊥
not_active h e = ground arith

check_info_iff :
    (p : Plan) (uri : QemuSshUri) (net : Text) (client : Client) (r : Result Failure Text × Sent)
    → ((check_info p uri net client r).0 ≡ ok tt)
      ↔ ReadyIfKnown (1 + length p.worker_names) uri net client r
unfolding check_info
check_info_iff p uri net client (err e, sent) = (λ h. absurd cc, λ h. absurd h)
check_info_iff p uri net client (ok info, sent) = go (net_info_reports_active info) refl
  where
    go :
        (b : Bool)
        → net_info_reports_active info ≡ b
        → ((if◌then◌else◌ {A = Result NetError (Unit {0}) × Sent} b
              (
                enough_functions net
                    (1 + length p.worker_names)
                    (hostdev_vf_count (xml_after uri net client sent)),
                (net_dumpxml uri net client sent).1,
              )
              (err (inactive_network net), sent)).0
            ≡ ok tt)
          ↔ IsReady (1 + length p.worker_names) info (xml_after uri net client sent)
    go true e =
        let f =
          enough_functions_iff net (1 + length p.worker_names)
            (hostdev_vf_count (xml_after uri net client sent)) in
        (λ h. record { active = e; enough = f.0 h }, λ r. f.1 r.enough)
    go false e = (λ h. absurd cc, λ r. absurd (not_active r.active e))

-- The probe of the second cards' network succeeds exactly if `virsh net-info` answers, the answer
-- reports the network active, and, when the network's definition, read as empty if `virsh net-dumpxml`
-- fails, is of a hostdev pool, the pool has at least as many functions as there are machines, the
-- control plane and the workers.
pub check_extra_network_on_host_iff :
    (p : Plan) (uri : QemuSshUri) (net : Text) (client : Client) (sent : Sent)
    → ((check_extra_network_on_host p uri net client sent).0 ≡ ok tt)
      ↔ ReadyIfKnown (1 + length p.worker_names) uri net client (net_info uri net client sent)
unfolding check_extra_network_on_host
check_extra_network_on_host_iff p uri net client sent =
    check_info_iff p uri net client (net_info uri net client sent)
