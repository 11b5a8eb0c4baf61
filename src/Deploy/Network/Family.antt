-- ===== src/Deploy/Network/Family.antt =====
-- What rust/crates/hbird-cli/src/commands/deploy_cluster.rs requires of the second cards' addresses.
use hummingbird_k8s.Base.{
  ℕ, suc, Bool, true, false, not, List, [], ◌∷◌, ◌≡◌, refl, arith, Option, none, some, All, Ensures,
  Ensures-ok, Ensures-map, Ensures-both, Ensures-test,
}
use hummingbird_k8s.Text.{Text, eq, to_ascii_lowercase}
use hummingbird_k8s.Update.Plan.{NameMap, get}
use hummingbird_k8s.Deploy.Distinct.{DistinctBy, eq-false_comm}
use hummingbird_k8s.Deploy.Cidr.{ip_in_cidr}
use hummingbird_k8s.Deploy.Network.{
  NetError, require, check_entries, contains_text, owned, check_macs, bare, check_ips, nonempty,
  outside, check_ranges, duplicate_mac, duplicate_ip,
}

pub require-true : (b : Bool) (e : NetError) → Ensures (λ u. b ≡ true) (require b e)
unfolding require
require-true b e = Ensures-test b e

pub check_entries-All :
    (is_valid : Text → Bool) (bad : ℕ → Text → NetError) (i : ℕ) (ms : List Text)
    → Ensures (λ u. All (λ m. is_valid m ≡ true) ms) (check_entries is_valid bad i ms)
unfolding check_entries
check_entries-All is_valid bad i [] = Ensures-ok _ _ tt
check_entries-All is_valid bad i (m ∷ ms) =
    Ensures-both _ _ (require-true (is_valid m) (bad i m))
      (check_entries-All is_valid bad (suc i) ms)

-- Distinct by the key, and none with a key of the set.
pub record New (key : Text → Text) (seen ms : List Text) : Type 0 where
  fresh : All (λ m. contains_text (key m) seen ≡ false) ms
  pub distinct : DistinctBy key ms

record Apart (key : Text → Text) (k : Text) (seen ms : List Text) : Type 0 where
  fresh : All (λ m. contains_text (key m) seen ≡ false) ms
  differ : All (λ m. eq (key m) k ≡ false) ms

contains_text-cons :
    (s k : Text) (seen : List Text)
    → contains_text s (k ∷ seen) ≡ false
    → (eq k s ≡ false) × (contains_text s seen ≡ false)
unfolding contains_text
contains_text-cons s k seen h = (ground arith, ground arith)

seen-Apart :
    (key : Text → Text) (k : Text) (seen ms : List Text)
    → All (λ m. contains_text (key m) (k ∷ seen) ≡ false) ms
    → Apart key k seen ms
seen-Apart key k seen [] h = record { fresh = tt; differ = tt }
seen-Apart key k seen (m ∷ ms) (n, h) =
    let later = seen-Apart key k seen ms h in
    let (d, f) = contains_text-cons (key m) k seen n in
    record { fresh = (f, later.fresh); differ = (eq-false_comm k (key m) d, later.differ) }

New-cons :
    (key : Text → Text) (seen : List Text) (m : Text) (ms : List Text)
    → contains_text (key m) seen ≡ false
    → New key (key m ∷ seen) ms
    → New key seen (m ∷ ms)
New-cons key seen m ms f n =
    let s = seen-Apart key (key m) seen ms n.fresh in
    record { fresh = (f, s.fresh); distinct = (s.differ, n.distinct) }

pub record NewMacs (primary : NameMap) (seen ms : List Text) : Type 0 where
  pub new : New to_ascii_lowercase seen ms
  pub unowned : All (λ m. get (to_ascii_lowercase m) primary ≡ none) ms

owned-none : (m : Text) (o : Option Text) → Ensures (λ u. o ≡ none) (owned m o)
unfolding owned
owned-none m none = Ensures-ok _ _ refl
owned-none m (some w) = record { on_ok = λ u h. absurd cc }

not-true : (b : Bool) → not b ≡ true → b ≡ false
not-true b h = ground arith

pub check_macs-NewMacs :
    (primary : NameMap) (seen ms : List Text)
    → Ensures (λ u. NewMacs primary seen ms) (check_macs primary seen ms)
unfolding check_macs
check_macs-NewMacs primary seen [] =
    Ensures-ok _ _ (record { new = record { fresh = tt; distinct = tt }; unowned = tt })
check_macs-NewMacs primary seen (m ∷ ms) =
    let mk = to_ascii_lowercase m in
    Ensures-map _ _ _
      (Ensures-both _ _
        (Ensures-both _ _ (require-true (not (contains_text mk seen)) (duplicate_mac m))
          (owned-none m (get mk primary)))
        (check_macs-NewMacs primary (mk ∷ seen) ms))
      (λ u h. record {
        new = New-cons to_ascii_lowercase seen m ms (not-true _ h.0.0) h.1.new;
        unowned = (h.0.1, h.1.unowned);
      })

pub check_ips-New :
    (seen addrs : List Text) → Ensures (λ u. New bare seen addrs) (check_ips seen addrs)
unfolding check_ips
check_ips-New seen [] = Ensures-ok _ _ (record { fresh = tt; distinct = tt })
check_ips-New seen (a ∷ addrs) =
    Ensures-map _ _ _
      (Ensures-both _ _ (require-true (not (contains_text (bare a) seen)) (duplicate_ip (bare a)))
        (check_ips-New (bare a ∷ seen) addrs))
      (λ u h. New-cons bare seen a addrs (not-true _ h.0) h.1)

-- The address is outside the range, if there is one.
abbrev pub Outside : Option Text → Text → Type 0
Outside none a = Unit
Outside (some range) a = ip_in_cidr (bare a) range ≡ false

outside-Outside :
    (a name : Text) (range : Option Text)
    → Ensures (λ u. Outside range a) (outside (bare a) name range)
unfolding outside
outside-Outside a name none = Ensures-ok _ _ tt
outside-Outside a name (some range) =
    Ensures-map _ _ _ (require-true (not (ip_in_cidr (bare a) range)) _) (λ u h. not-true _ h)

-- Outside the pods' and the services' range.
abbrev pub OutsideBoth : Option Text → Option Text → Text → Type 0
OutsideBoth pods services a = Outside (nonempty pods) a × Outside (nonempty services) a

pub check_ranges-OutsideBoth :
    (pods services : Option Text) (addrs : List Text)
    → Ensures (λ u. All (OutsideBoth pods services) addrs) (check_ranges pods services addrs)
unfolding check_ranges
check_ranges-OutsideBoth pods services [] = Ensures-ok _ _ tt
check_ranges-OutsideBoth pods services (a ∷ addrs) =
    Ensures-both _ _
      (Ensures-both _ _ (outside-Outside a _ (nonempty pods))
        (outside-Outside a _ (nonempty services)))
      (check_ranges-OutsideBoth pods services addrs)
