-- ===== src/Deploy/Network/Cards.antt =====
-- All network cards of a deployment: `resolve_primary_macs` and `validate_extra_network` of
-- rust/crates/hbird-cli/src/commands/deploy_cluster.rs, one after the other.
use hummingbird_k8s.Base.{
  suc, ◌==◌, Bool, true, false, List, [], ◌∷◌, ◌++◌, ◌≡◌, refl, sym, ◌∙◌, arith, ap, Option, none,
  some, ok, err, map, length, All, All-append, Ensures, Ensures-bind, Ensures-ok, Ensures-both,
  ==_iff, if◌then◌else◌,
}
use hummingbird_k8s.Text.{Text}
use hummingbird_k8s.Deploy.Plan.{Plan}
use hummingbird_k8s.Deploy.Distinct.{DistinctBy, DistinctBy-append}
use hummingbird_k8s.Deploy.Macs.{PrimaryMacs, is_valid_mac}
use hummingbird_k8s.Deploy.Macs.Distinct.{IsMac, Distinct, AllDistinct}
use hummingbird_k8s.Deploy.Cidr.{is_valid_cidr}
use hummingbird_k8s.Deploy.Network.{
  Net2, Nets, half_set, bare, is_half_set, nonempty, primary_by_mac, zip_nets, wrap_some,
  validate_family, validate_named, validate_extra_network,
}
use hummingbird_k8s.Deploy.Network.Owners.{primary_by_mac-Differs}
use hummingbird_k8s.Deploy.Network.Family.{
  require-true, check_entries-All, check_macs-NewMacs, check_ips-New, OutsideBoth,
  check_ranges-OutsideBoth, NewMacs, New,
}

abbrev pub macs_of : Nets → List Text
macs_of n = n.cp.mac ∷ map (λ c. c.mac) n.workers

abbrev pub ips_of : Nets → List Text
ips_of n = n.cp.ip ∷ map (λ c. c.ip) n.workers

abbrev pub all_macs : PrimaryMacs → List Text → List Text
all_macs macs ms = (macs.cp ∷ macs.workers) ++ ms

-- What the addresses of the second cards have to be, with the names of the workers.
pub record Separate (p : Plan) (macs : PrimaryMacs) (ms addrs : List Text) : Type 0 where
  pub valid_macs : All IsMac (all_macs macs ms)
  pub distinct_macs : Distinct (all_macs macs ms)
  pub valid_ips : All (λ a. is_valid_cidr a ≡ true) addrs
  pub distinct_ips : DistinctBy bare addrs
  pub outside : All (OutsideBoth p.pod_cidr p.service_cidr) addrs

pub record NetsSeparate (p : Plan) (macs : PrimaryMacs) (n : Nets) : Type 0 where
  pub separate : Separate p macs (macs_of n) (ips_of n)
  pub parallel : length n.workers ≡ length p.worker_names

record Zipped (ms addrs : List Text) (n : List Net2) : Type 0 where
  macs : map (λ c. c.mac) n ≡ ms
  ips : map (λ c. c.ip) n ≡ addrs
  count : length n ≡ length ms

zip_nets-Zipped :
    (net : Text) (ms addrs : List Text)
    → length ms ≡ length addrs
    → Zipped ms addrs (zip_nets net ms addrs)
unfolding zip_nets
zip_nets-Zipped net [] [] e = record { macs = refl; ips = refl; count = refl }
zip_nets-Zipped net [] (a ∷ addrs) e = absurd (ground arith)
zip_nets-Zipped net (m ∷ ms) [] e = absurd (ground arith)
zip_nets-Zipped net (m ∷ ms) (a ∷ addrs) e =
    let z = zip_nets-Zipped net ms addrs (ground arith) in
    record { macs = ap (◌∷◌ m) z.macs; ips = ap (◌∷◌ a) z.ips; count = ap suc z.count }

zipped-NetsSeparate :
    (p : Plan) (macs : PrimaryMacs) (net m a : Text) (ms addrs : List Text)
    → length ms ≡ length p.worker_names
    → length addrs ≡ length p.worker_names
    → Separate p macs (m ∷ ms) (a ∷ addrs)
    → NetsSeparate p macs
        (record { cp = record { network = net; mac = m; ip = a }; workers = zip_nets net ms addrs })
zipped-NetsSeparate p macs net m a ms addrs em ea s =
    let z = zip_nets-Zipped net ms addrs (em ∙ sym ea) in
    record { separate = rw (z.macs, z.ips) s; parallel = z.count ∙ em }

checks-Separate :
    (p : Plan) (macs : PrimaryMacs) (ms addrs : List Text)
    → AllDistinct p.worker_names macs
    → All IsMac ms
    → All (λ a. is_valid_cidr a ≡ true) addrs
    → NewMacs (primary_by_mac p macs) [] ms
    → New bare [] addrs
    → All (OutsideBoth p.pod_cidr p.service_cidr) addrs
    → Separate p macs ms addrs
checks-Separate p macs ms addrs d vm va nm na o = record {
  valid_macs = All-append _ (macs.cp ∷ macs.workers) ms d.valid vm;
  distinct_macs =
      DistinctBy-append _ (macs.cp ∷ macs.workers) ms d.distinct nm.new.distinct
        (primary_by_mac-Differs p macs ms d.parallel nm.unowned);
  valid_ips = va;
  distinct_ips = na.distinct;
  outside = o;
}

validate_family-NetsSeparate :
    (p : Plan) (macs : PrimaryMacs) (net : Text)
    → AllDistinct p.worker_names macs
    → Ensures (NetsSeparate p macs) (validate_family p macs net)
unfolding validate_family
validate_family-NetsSeparate p macs net d =
    Ensures-bind _ _ _
      (Ensures-both _ _
        (Ensures-both _ _
          (Ensures-both _ _
            (Ensures-both _ _
              (Ensures-both _ _
                (Ensures-both _ _
                  (Ensures-both _ _ (Ensures-both _ _ (require-true _ _) (require-true _ _))
                    (require-true _ _))
                  (require-true _ _))
                (check_entries-All _ _ _ _))
              (check_entries-All _ _ _ _))
            (check_macs-NewMacs _ _ _))
          (check_ips-New _ _))
        (check_ranges-OutsideBoth _ _ _))
      (λ u h. Ensures-ok _ _ (
        go h.0.0.0.0.0.0.0.0 h.0.0.0.0.0.0.0.1 h.0.0.0.0.0.0.1 h.0.0.0.0.0.1 h.0.0.0.0.1 h.0.0.0.1
          h.0.0.1 h.0.1 h.1))
  where
    go :
        {cp_mac cp_ip : Text} {ms addrs : List Text}
        → is_valid_mac cp_mac ≡ true
        → is_valid_cidr cp_ip ≡ true
        → (length ms == length p.worker_names) ≡ true
        → (length addrs == length p.worker_names) ≡ true
        → All IsMac ms
        → All (λ a. is_valid_cidr a ≡ true) addrs
        → NewMacs (primary_by_mac p macs) [] (cp_mac ∷ ms)
        → New bare [] (cp_ip ∷ addrs)
        → All (OutsideBoth p.pod_cidr p.service_cidr) (cp_ip ∷ addrs)
        → NetsSeparate p macs (record {
          cp = record { network = net; mac = cp_mac; ip = cp_ip };
          workers = zip_nets net ms addrs;
        })
    go m a lm la vm va nm na o =
        zipped-NetsSeparate p macs net _ _ _ _ ((==_iff _ _).0 lm) ((==_iff _ _).0 la)
          (checks-Separate p macs _ _ d (m, vm) (a, va) nm na o)

abbrev pub IfNets : (Nets → Type 0) → Option Nets → Type 0
IfNets P none = Unit
IfNets P (some n) = P n

pub validate_extra_network-NetsSeparate :
    (p : Plan) (macs : PrimaryMacs)
    → AllDistinct p.worker_names macs
    → Ensures (IfNets (NetsSeparate p macs)) (validate_extra_network p macs)
unfolding validate_extra_network
validate_extra_network-NetsSeparate p macs d = go (nonempty p.extra_network)
  where
    off : (b : Bool) → Ensures (IfNets (NetsSeparate p macs)) (if b then err half_set else ok none)
    off true = record { on_ok = λ n h. absurd cc }
    off false = Ensures-ok _ _ tt

    go : (o : Option Text) → Ensures (IfNets (NetsSeparate p macs)) (validate_named p macs o)
    go none = unfold validate_named in off (is_half_set p)
    go (some net) =
        unfold validate_named in
        Ensures-bind _ _ _ (validate_family-NetsSeparate p macs net d)
          (λ n h. unfold wrap_some in Ensures-ok _ _ h)
