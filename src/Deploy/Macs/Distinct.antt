-- ===== src/Deploy/Macs/Distinct.antt =====
-- The MAC addresses that rust/crates/hbird-cli/src/commands/deploy_cluster.rs accepts or derives.
use hummingbird_k8s.Base.{
  ℕ, suc, ◌%◌, ◌<◌, Bool, true, false, List, [], ◌∷◌, ◌==◌, ◌≡◌, refl, arith, Option, none, some,
  ok, err, if◌then◌else◌, length, All, ap, Ensures, Ensures-bind, Ensures-ok, Ensures-test, ltb,
}
use hummingbird_k8s.Text.{Text, text, eq, len, split, is_ascii_digit, to_ascii_lowercase}
use hummingbird_k8s.Update.Plan.{NameMap, get}
use hummingbird_k8s.Deploy.Distinct.{DiffersBy, DistinctBy}
use hummingbird_k8s.Deploy.Sha256.{hex_digit, hex8, sha256_hex}
use hummingbird_k8s.Deploy.Macs.{
  malformed_cp_mac, PrimaryMacs, or_derived, configured, resolve_from, resolve_primary_macs,
  malformed_worker_mac, primary_collision, check_worker_mac, derive_primary_mac, mac_of_digest,
  two_at, is_ascii_hexdigit, is_hex_pair, is_valid_mac,
}

record IsHex (c : ℕ) : Type 0 where
  digit : is_ascii_hexdigit c ≡ true
  no_colon : c == b':' ≡ false
  ascii : ltb c 128 ≡ true

hex_digit-IsHex : (n : ℕ) → n < 16 → IsHex (hex_digit n)
unfolding hex_digit is_ascii_hexdigit is_ascii_digit
hex_digit-IsHex n h = record { digit = ground arith; no_colon = ground arith; ascii = ground arith }

is_hex_pair-two : (a b : ℕ) → IsHex a → IsHex b → is_hex_pair (a ∷ b ∷ []) ≡ true
unfolding is_hex_pair len
is_hex_pair-two a b ha hb = rw (ha.ascii, hb.ascii, ha.digit, hb.digit) refl

known_pairs : All (λ p. is_hex_pair p ≡ true) (text "52" ∷ text "54" ∷ text "00" ∷ [])
unfolding text is_hex_pair is_ascii_hexdigit is_ascii_digit len
known_pairs = (refl, (refl, (refl, tt)))

mac_of_digest-valid :
    (a b c d e f : ℕ) (rest : Text)
    → IsHex a
    → IsHex b
    → IsHex c
    → IsHex d
    → IsHex e
    → IsHex f
    → is_valid_mac (mac_of_digest (a ∷ b ∷ c ∷ d ∷ e ∷ f ∷ rest)) ≡ true
unfolding is_valid_mac mac_of_digest two_at split text
mac_of_digest-valid a b c d e f rest ha hb hc hd he hf =
    rw
      (
        ha.no_colon,
        hb.no_colon,
        hc.no_colon,
        hd.no_colon,
        he.no_colon,
        hf.no_colon,
        known_pairs.0,
        known_pairs.1.0,
        known_pairs.1.1.0,
        is_hex_pair-two a b ha hb,
        is_hex_pair-two c d hc hd,
        is_hex_pair-two e f he hf,
      )
      refl

-- Every name has a derived address of the right form.
pub derive_primary_mac-valid : (name : Text) → is_valid_mac (derive_primary_mac name) ≡ true
unfolding derive_primary_mac sha256_hex hex8
derive_primary_mac-valid name =
    mac_of_digest-valid _ _ _ _ _ _ _ (nibble _) (nibble _) (nibble _) (nibble _) (nibble _)
      (nibble _)
  where
    nibble : (n : ℕ) → IsHex (hex_digit (n % 16))
    nibble n = hex_digit-IsHex (n % 16) (ground arith)

-- Two addresses that differ in more than the case of their letters.
abbrev pub Differs : Text → Text → Type 0
Differs m n = DiffersBy to_ascii_lowercase m n

abbrev pub Distinct : List Text → Type 0
Distinct ms = DistinctBy to_ascii_lowercase ms

abbrev pub IsMac : Text → Type 0
IsMac m = is_valid_mac m ≡ true

-- Neither malformed nor in the map.
record IsNew (seen : NameMap) (m : Text) : Type 0 where
  valid : IsMac m
  unseen : get (to_ascii_lowercase m) seen ≡ none

record Assigned (seen : NameMap) (names macs : List Text) : Type 0 where
  new : All (IsNew seen) macs
  distinct : Distinct macs
  parallel : length macs ≡ length names

check_worker_mac-IsNew :
    (i : ℕ) (w mac : Text) (seen : NameMap)
    → Ensures (λ u. IsNew seen mac) (check_worker_mac i w mac seen)
unfolding check_worker_mac
check_worker_mac-IsNew i w mac seen = record {
  on_ok = λ u h. go (is_valid_mac mac) refl (get (to_ascii_lowercase mac) seen) refl u h;
}
  where
    go :
        (b : Bool)
        → is_valid_mac mac ≡ b
        → (o : Option Text) → get (to_ascii_lowercase mac) seen ≡ o
        → (u : Unit {0})
        → (if b
            then (elim o [ none ↦ ok tt | some other ↦ err (primary_collision w other mac) ])
            else err (malformed_worker_mac i mac))
          ≡ ok u
        → IsNew seen mac
    go true v none n u h = record { valid = v; unseen = n }
    go true v (some x) n u h = absurd cc
    go false v o n u h = absurd cc

unadded :
    (k w m : Text) (seen : NameMap)
    → get m ((k, w) ∷ seen) ≡ none
    → (get m seen ≡ none) × (eq m k ≡ false)
unfolding get
unadded k w m seen h = (ground arith, ground arith)

record Shrunk (seen : NameMap) (k : Text) (ms : List Text) : Type 0 where
  new : All (IsNew seen) ms
  differ : All (Differs k) ms

shrink :
    (k w : Text) (seen : NameMap) (ms : List Text)
    → All (IsNew ((to_ascii_lowercase k, w) ∷ seen)) ms
    → Shrunk seen k ms
shrink k w seen [] h = record { new = tt; differ = tt }
shrink k w seen (m ∷ ms) (n, h) =
    let (unseen, differs) = unadded (to_ascii_lowercase k) w (to_ascii_lowercase m) seen n.unseen in
    let later = shrink k w seen ms h in
    record {
      new = (record { valid = n.valid; unseen = unseen }, later.new);
      differ = (differs, later.differ);
    }

Assigned-cons :
    (w mac : Text) (ws macs : List Text) (seen : NameMap)
    → IsNew seen mac
    → Assigned ((to_ascii_lowercase mac, w) ∷ seen) ws macs
    → Assigned seen (w ∷ ws) (mac ∷ macs)
Assigned-cons w mac ws macs seen n a =
    let s = shrink mac w seen macs a.new in
    record { new = (n, s.new); distinct = (s.differ, a.distinct); parallel = ap suc a.parallel }

resolve_from-Assigned :
    (given : Option (List Text)) (i : ℕ) (seen : NameMap) (ws : List Text)
    → Ensures (Assigned seen ws) (resolve_from given i seen ws)
unfolding resolve_from
resolve_from-Assigned given i seen [] =
    Ensures-ok _ _ (record { new = tt; distinct = tt; parallel = refl })
resolve_from-Assigned given i seen (w ∷ ws) =
    let mac = or_derived (configured given i) w in
    Ensures-bind (λ u. IsNew seen mac) _ _ (check_worker_mac-IsNew i w mac seen)
      (λ u n.
        Ensures-bind _ _ _
          (resolve_from-Assigned given (suc i) ((to_ascii_lowercase mac, w) ∷ seen) ws)
          (λ macs a. Ensures-ok _ _ (Assigned-cons w mac ws macs seen n a)))

-- What the addresses of a deployment are.
pub record AllDistinct (names : List Text) (p : PrimaryMacs) : Type 0 where
  pub valid : All IsMac (p.cp ∷ p.workers)
  pub distinct : Distinct (p.cp ∷ p.workers)
  pub parallel : length p.workers ≡ length names

pub resolve_primary_macs-Distinct :
    (cp_name : Text) (cp_mac : Option Text) (names : List Text) (given : Option (List Text))
    → Ensures (AllDistinct names) (resolve_primary_macs cp_name cp_mac names given)
unfolding resolve_primary_macs
resolve_primary_macs-Distinct cp_name cp_mac names given =
    let cp = or_derived cp_mac cp_name in
    Ensures-bind (λ u. IsMac cp) _ _ (Ensures-test (is_valid_mac cp) (malformed_cp_mac cp))
      (λ u v.
        Ensures-bind _ _ _
          (resolve_from-Assigned given 0 ((to_ascii_lowercase cp, cp_name) ∷ []) names)
          (λ macs a. Ensures-ok _ _ (
            let s = shrink cp cp_name [] macs a.new in
            record {
              valid = (v, All-valid _ macs a.new);
              distinct = (s.differ, a.distinct);
              parallel = a.parallel;
            })))
  where
    All-valid : (seen : NameMap) (ms : List Text) → All (IsNew seen) ms → All IsMac ms
    All-valid seen [] h = tt
    All-valid seen (m ∷ ms) (n, h) = (n.valid, All-valid seen ms h)
