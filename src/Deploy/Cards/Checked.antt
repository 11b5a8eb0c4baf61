-- ===== src/Deploy/Cards/Checked.antt =====
-- What holds of the cards that `run` of rust/crates/hbird-cli/src/commands/deploy_cluster.rs accepts.
use hummingbird_k8s.Base.{
  true, ◌≡◌, Option, none, some, ok, Ensures, Ensures-bind, Ensures-ok, Ensures-both, Ensures-map,
  Ensures-test, Ensures-wrap_error,
}
use hummingbird_k8s.Text.{Text}
use hummingbird_k8s.Deploy.Plan.{Plan}
use hummingbird_k8s.Deploy.Macs.{PrimaryMacs}
use hummingbird_k8s.Deploy.Macs.Distinct.{AllDistinct, resolve_primary_macs-Distinct}
use hummingbird_k8s.Deploy.Cidr.{is_valid_cidr}
use hummingbird_k8s.Deploy.Network.{Nets, nonempty}
use hummingbird_k8s.Deploy.Network.Cards.{NetsSeparate, IfNets, validate_extra_network-NetsSeparate}
use hummingbird_k8s.Deploy.Cards.{
  Cards, malformed_range, of_macs, of_nets, check_range, check_second, check_cards,
}

-- A range that is set is well formed.
abbrev pub ValidIfSet : Option Text → Type 0
ValidIfSet none = Unit
ValidIfSet (some v) = is_valid_cidr v ≡ true

pub record AllChecked (p : Plan) (c : Cards) : Type 0 where
  pub primary : AllDistinct p.worker_names c.macs
  pub pods : ValidIfSet (nonempty p.pod_cidr)
  pub services : ValidIfSet (nonempty p.service_cidr)
  pub second : IfNets (NetsSeparate p c.macs) c.nets

check_range-ValidIfSet :
    (knob : Text) (o : Option Text) → Ensures (λ u. ValidIfSet o) (check_range knob o)
unfolding check_range
check_range-ValidIfSet knob none = Ensures-ok _ _ tt
check_range-ValidIfSet knob (some v) = Ensures-test (is_valid_cidr v) (malformed_range knob v)

abbrev SecondChecked : Plan → PrimaryMacs → Option Nets → Type 0
SecondChecked p macs n =
    (ValidIfSet (nonempty p.pod_cidr) × ValidIfSet (nonempty p.service_cidr))
    × IfNets (NetsSeparate p macs) n

check_second-AllChecked :
    (p : Plan) (macs : PrimaryMacs)
    → AllDistinct p.worker_names macs
    → Ensures (AllChecked p) (check_second p macs)
unfolding check_second
check_second-AllChecked p macs d =
    Ensures-bind _ _ _
      (Ensures-bind _ _ _
        (Ensures-both _ _ (check_range-ValidIfSet _ _) (check_range-ValidIfSet _ _))
        (λ u r.
          Ensures-map _ (SecondChecked p macs) _
            (Ensures-wrap_error of_nets _ _ (validate_extra_network-NetsSeparate p macs d))
            (λ n h. (r, h))))
      (λ n h. Ensures-ok _ _ (record { primary = d; pods = h.0.0; services = h.0.1; second = h.1 }))

-- When `run` accepts the cards of a plan: the MAC addresses of the first cards are well formed and
-- differ in more than case, one for each worker; the ranges set for pods and services are well formed;
-- and if the plan names a second network, the MAC addresses of all cards, first and second, are well
-- formed and differ in more than case, the second cards' network addresses are well-formed CIDR, differ
-- before the slash and lie outside the two ranges, as `ip_in_cidr` judges, and every worker has a
-- second card.
pub check_cards-AllChecked : (p : Plan) (c : Cards) → check_cards p ≡ ok c → AllChecked p c
unfolding check_cards
check_cards-AllChecked p c h = ensured.on_ok c h
  where
    ensured : Ensures (AllChecked p) (check_cards p)
    ensured =
        unfold check_cards in
        Ensures-bind (AllDistinct p.worker_names) _ _
          (Ensures-wrap_error of_macs _ _
            (resolve_primary_macs-Distinct p.cp_name p.cp_mac p.worker_names p.worker_macs))
          (check_second-AllChecked p)
