-- ===== src/Text/Numbers.antt =====
-- Decimal numbers: `Display` and `FromStr` of Rust's unsigned integers.
use hummingbird_k8s.Base.{
  false, ℕ, zero, suc, ◌+◌, ◌-◌, ◌*◌, ◌/◌, ◌%◌, ◌≤◌, ◌<◌, Option, none, some, [], ◌∷◌, ◌++◌, ◌≡◌,
  ◌≢◌, refl, arith, ltb, leb, ◌==◌, if◌then◌else◌, Bool-cases, inl, inr,
}
use hummingbird_k8s.Text.{Text, is_ascii_digit, contains_char}
use hummingbird_k8s.Text.Split.{contains_char-append}

-- One digit after another, with the overflow test of `checked_mul` and `checked_add`.
unfoldable pub digits_value : ℕ → ℕ → Text → Option ℕ
unfolding is_ascii_digit
digits_value max acc [] = some acc
digits_value max acc (c ∷ s) =
    let value = acc * 10 + (c - b'0') in
    let rest = digits_value max value s in
    if is_ascii_digit c then (if leb value max then rest else none) else none

unsigned : ℕ → Text → Option ℕ
unsigned max [] = none
unsigned max (c ∷ s) = digits_value max 0 (c ∷ s)

-- `parse::<uN>()` with the type's largest value: digits, after one optional `+`.
unfoldable pub parse_uint : ℕ → Text → Option ℕ
unfolding unsigned digits_value
parse_uint max [] = none
parse_uint max (c ∷ s) = if c == b'+' then unsigned max s else unsigned max (c ∷ s)

abbrev pub u16_max : ℕ
u16_max = 65535

abbrev pub u32_max : ℕ
u32_max = 4294967295

digits_from : ℕ → ℕ → Text
digits_from zero n = []
digits_from (suc fuel) n =
    let higher = digits_from fuel (n / 10) in
    (if ltb n 10 then [] else higher) ++ (b'0' + n % 10) ∷ []

-- `Display` of an unsigned integer.
unfoldable pub to_text : ℕ → Text
unfolding digits_from
to_text n = digits_from (suc n) n

append-singleton-ne-nil : (s : Text) (c : ℕ) → s ++ c ∷ [] ≢ []
append-singleton-ne-nil [] c h = cc
append-singleton-ne-nil (d ∷ s) c h = cc

digits_value-append :
    (max acc : ℕ) (s : Text) (v d : ℕ)
    → digits_value max acc s ≡ some v
    → d < 10
    → v * 10 + d ≤ max
    → digits_value max acc (s ++ (b'0' + d) ∷ []) ≡ some (v * 10 + d)
unfolding digits_value
digits_value-append max acc [] v d h k m = ground arith
digits_value-append max acc (c ∷ s) v d h k m =
    ground (arith, digits_value-append max (acc * 10 + (c - b'0')) s v d)

digits_value-digits_from :
    (max fuel n : ℕ) → n < fuel → n ≤ max → digits_value max 0 (digits_from fuel n) ≡ some n
unfolding digits_from
digits_value-digits_from max zero n h m = absurd (omega arith)
digits_value-digits_from max (suc fuel) n h m = elim (Bool-cases (ltb n 10)) [
  | inl small ↦ rw small (unfold digits_value in ground arith)
  | inr large ↦
      let ih = digits_value-digits_from max fuel (n / 10) (ground arith) (omega arith) in
      rw large
        (ground (arith, digits_value-append max 0 (digits_from fuel (n / 10)) (n / 10) (n % 10) ih))
]

parse_uint-digits :
    (max : ℕ) (s : Text) {v : ℕ}
    → s ≢ []
    → digits_value max 0 s ≡ some v
    → parse_uint max s ≡ some v
unfolding parse_uint
parse_uint-digits max [] ne h = absurd (ne refl)
parse_uint-digits max (c ∷ s) ne h = ground arith

digits_from-ne-nil : (fuel n : ℕ) → digits_from (suc fuel) n ≢ []
unfolding digits_from
digits_from-ne-nil fuel n = append-singleton-ne-nil _ _

-- A number in range is read back from its decimal text.
pub parse_uint-to_text : (max n : ℕ) → n ≤ max → parse_uint max (to_text n) ≡ some n
unfolding to_text
parse_uint-to_text max n h =
    parse_uint-digits max (digits_from (suc n) n) (digits_from-ne-nil n n)
      (digits_value-digits_from max (suc n) n (omega arith) h)

digits_value-le :
    (max acc : ℕ) (s : Text) (v : ℕ) → acc ≤ max → digits_value max acc s ≡ some v → v ≤ max
unfolding digits_value
digits_value-le max acc [] v h e = ground arith
digits_value-le max acc (c ∷ s) v h e =
    ground (arith, digits_value-le max (acc * 10 + (c - b'0')) s v)

-- What is parsed is in range.
pub parse_uint-le : (max : ℕ) (s : Text) (v : ℕ) → parse_uint max s ≡ some v → v ≤ max
unfolding parse_uint
parse_uint-le max [] v e = ground arith
parse_uint-le max (c ∷ []) v e = ground (arith, digits_value-le max 0 (c ∷ []) v)
parse_uint-le max (c ∷ d ∷ s) v e =
    ground (arith, digits_value-le max 0 (c ∷ d ∷ s) v, digits_value-le max 0 (d ∷ s) v)

digits_from-free :
    (c fuel n : ℕ) → is_ascii_digit c ≡ false → contains_char c (digits_from fuel n) ≡ false
unfolding digits_from contains_char is_ascii_digit
digits_from-free c zero n h = refl
digits_from-free c (suc fuel) n h = elim (Bool-cases (ltb n 10)) [
  | inl small ↦ rw small (ground arith)
  | inr large ↦
      let ih = digits_from-free c fuel (n / 10) h in
      rw large (
        ground
          (arith, ih, contains_char-append c (digits_from fuel (n / 10)) ((b'0' + n % 10) ∷ [])))
]

-- The decimal text of a number holds digits only.
pub to_text-free : (c n : ℕ) → is_ascii_digit c ≡ false → contains_char c (to_text n) ≡ false
unfolding to_text
to_text-free c n h = digits_from-free c (suc n) n h

-- Digits behind a value do not make it smaller.
digits_value-le_acc : (max acc : ℕ) (s : Text) (v : ℕ) → digits_value max acc s ≡ some v → acc ≤ v
unfolding digits_value
digits_value-le_acc max acc [] v h = ground arith
digits_value-le_acc max acc (c ∷ s) v h =
    ground (arith, digits_value-le_acc max (acc * 10 + (c - b'0')) s v)

-- A number that begins with a digit other than zero is positive.
pub parse_uint-positive :
    (max c : ℕ) (s : Text) (v : ℕ) → b'1' ≤ c → parse_uint max (c ∷ s) ≡ some v → 0 < v
unfolding parse_uint unsigned digits_value
parse_uint-positive max c s v d h =
    ground (arith, digits_value-le_acc max (0 * 10 + (c - b'0')) s v)
