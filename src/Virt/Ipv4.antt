-- ===== src/Virt/Ipv4.antt =====
-- `Ipv4Addr` of Rust's standard library: `FromStr` and `Display`.
use hummingbird_k8s.Base.{
  ℕ, zero, suc, ◌≤◌, ◌<◌, Bool, true, false, not, ◌&&◌, List, [], ◌∷◌, ◌++◌, ◌≡◌, refl, arith, ◌==◌,
  Option, none, some, if◌then◌else◌, is_empty,
}
use hummingbird_k8s.Text.{Text, split, contains_char, is_ascii_digit}
use hummingbird_k8s.Text.Numbers.{digits_value, to_text, to_text-free}

pub record Ipv4 : Type 0 where
  pub first : ℕ
  pub second : ℕ
  pub third : ℕ
  pub fourth : ℕ

-- One octet: at most 255, without a leading zero.
unfoldable pub octet : Text → Option ℕ
octet [] = none
octet (c ∷ s) = if c == b'0' && not (is_empty s) then none else digits_value 255 0 (c ∷ s)

abbrev octets : Option ℕ → Option ℕ → Option ℕ → Option ℕ → Option Ipv4
octets (some a) (some b) (some c) (some d) =
    some (record { first = a; second = b; third = c; fourth = d })
octets _ _ _ _ = none

abbrev from_pieces : List Text → Option Ipv4
from_pieces (a ∷ b ∷ c ∷ d ∷ []) = octets (octet a) (octet b) (octet c) (octet d)
from_pieces _ = none

-- `addr.parse::<Ipv4Addr>()`
unfoldable pub parse_ipv4 : Text → Option Ipv4
parse_ipv4 s = from_pieces (split b'.' s)

-- `Display`
unfoldable pub display_ipv4 : Ipv4 → Text
display_ipv4 ip =
    to_text ip.first
    ++ b'.' ∷ (to_text ip.second ++ b'.' ∷ (to_text ip.third ++ b'.' ∷ to_text ip.fourth))

abbrev pub IsIpv4 : Ipv4 → Type 0
IsIpv4 ip = (ip.first ≤ 255) × (ip.second ≤ 255) × (ip.third ≤ 255) × (ip.fourth ≤ 255)

abbrev reads_back : ℕ → Option ℕ → Bool
reads_back n none = false
reads_back n (some m) = m == n

-- Every number below the bound is read back.
abbrev all_below : ℕ → Bool
all_below zero = true
all_below (suc n) = reads_back n (octet (to_text n)) && all_below n

all_octets : all_below 256 ≡ true
unfolding octet to_text digits_value
all_octets = refl

reads_back-some : (n : ℕ) (o : Option ℕ) → reads_back n o ≡ true → o ≡ some n
reads_back-some n none h = cc
reads_back-some n (some m) h = ground arith

octet_below : (bound n : ℕ) → n < bound → all_below bound ≡ true → octet (to_text n) ≡ some n
octet_below zero n h e = absurd (ground arith)
octet_below (suc m) n h e = ground (arith, octet_below m n, reads_back-some m (octet (to_text m)))

pub octet-to_text : (n : ℕ) → n ≤ 255 → octet (to_text n) ≡ some n
octet-to_text n h = octet_below 256 n (ground arith) all_octets

pub split-append :
    (c : ℕ) (l r : Text) → contains_char c l ≡ false → split c (l ++ c ∷ r) ≡ l ∷ split c r
unfolding split contains_char
split-append c [] r h = ground arith
split-append c (d ∷ l) r h = ground (arith, split-append c l r)

pub split_free : (c : ℕ) (s : Text) → contains_char c s ≡ false → split c s ≡ s ∷ []
unfolding split contains_char
split_free c [] h = refl
split_free c (d ∷ s) h = ground (arith, split_free c s)

-- An address is read back from its text.
pub parse_ipv4-display_ipv4 : (ip : Ipv4) → IsIpv4 ip → parse_ipv4 (display_ipv4 ip) ≡ some ip
unfolding parse_ipv4 display_ipv4 is_ascii_digit
parse_ipv4-display_ipv4 ip (a, b, c, d) =
    rw
      (
        split-append b'.' (to_text ip.first) _ (to_text-free b'.' ip.first refl),
        split-append b'.' (to_text ip.second) _ (to_text-free b'.' ip.second refl),
        split-append b'.' (to_text ip.third) _ (to_text-free b'.' ip.third refl),
        split_free b'.' (to_text ip.fourth) (to_text-free b'.' ip.fourth refl),
        octet-to_text ip.first a,
        octet-to_text ip.second b,
        octet-to_text ip.third c,
        octet-to_text ip.fourth d,
      )
      refl
