-- ===== src/Preflight/Versions.antt =====
-- Versions in rust/crates/hbird-cli/src/commands/preflight.rs.
use hummingbird_k8s.Base.{
  ℕ, zero, suc, ◌==◌, ◌&&◌, ◌||◌, ltb, Bool, true, false, List, [], ◌∷◌, ◌++◌, Option, none, some,
  if◌then◌else◌, is_empty,
}
use hummingbird_k8s.Text.{
  Text, text, le, len, split, strip_prefix, lines, trim_start, is_ascii_digit,
}
use hummingbird_k8s.Text.Numbers.{parse_uint}

abbrev pub u64_max : ℕ
u64_max = 18446744073709551615

-- `s.strip_prefix(p).unwrap_or(s)`
unfoldable pub without : Text → Text → Text
without p s = elim (strip_prefix p s) [ none ↦ s | some r ↦ r ]

abbrev pub pair_of : Option ℕ → Option ℕ → Option (ℕ × ℕ)
pair_of (some a) (some b) = some (a, b)
pair_of _ _ = none

abbrev pub pair_parts : List Text → Option (ℕ × ℕ)
pair_parts (a ∷ b ∷ parts) = pair_of (parse_uint u64_max a) (parse_uint u64_max b)
pair_parts _ = none

unfoldable pub parse_minor_pair : Text → Option (ℕ × ℕ)
parse_minor_pair s = pair_parts (split b'.' (without (text "v") s))

abbrev pub pair_lt : ℕ × ℕ → ℕ × ℕ → Bool
pair_lt (a, b) (c, d) = ltb a c || (a == c && ltb b d)

-- Not greater, in the order that `min_by` is given.
abbrev pub not_greater : Option (ℕ × ℕ) → Option (ℕ × ℕ) → Text → Text → Bool
not_greater (some p) (some q) a b = if pair_lt q p then false else true
not_greater (some p) none a b = true
not_greater none (some q) a b = false
not_greater none none a b = le a b

unfoldable pub precedes : Text → Text → Bool
precedes a b = not_greater (parse_minor_pair a) (parse_minor_pair b) a b

-- The first of the least, which `min_by` returns.
unfoldable pub least : Text → List Text → Text
least a [] = a
least a (b ∷ bs) = if precedes a b then least a bs else least b bs

unfoldable pub lowest_supported_minor : List Text → Option Text
lowest_supported_minor [] = none
lowest_supported_minor (a ∷ more) = some (least a more)

abbrev pub both_lt : Option (ℕ × ℕ) → Option (ℕ × ℕ) → Bool
both_lt (some p) (some q) = pair_lt p q
both_lt _ _ = false

unfoldable pub is_below_window : Text → Text → Bool
is_below_window k lowest = both_lt (parse_minor_pair k) (parse_minor_pair lowest)

-- `take_while(char::is_ascii_digit)` and what follows.
unfoldable pub span_digits : Text → Text × Text
span_digits [] = ([], [])
span_digits (c ∷ s) =
    let (ds, rest) = span_digits s in
    if◌then◌else◌ {A = Text × Text} (is_ascii_digit c) (c ∷ ds, rest) ([], c ∷ s)

-- The text from a component on: the separator stands before all but the first.
unfoldable pub component_start : Bool → Text → Option Text
component_start first rest = if first then some rest else strip_prefix (text ".") rest

unfoldable pub with_separator : Bool → Text → Text
with_separator first out = if first then out else out ++ text "."

-- The loop of `leading_dotted_number` with `n` components left, behind `out`.
unfoldable pub components_from : Bool → ℕ → Text → Text → Option Text
components_from first zero out rest = some out
components_from first (suc n) out rest = elim (component_start first rest) [
  | none ↦ none
  | some start ↦
      let (digits, later) = span_digits start in
      let next = components_from false n (with_separator first out ++ digits) later in
      if is_empty digits then none else next
]

unfoldable pub leading_dotted_number : Text → ℕ → Option Text
leading_dotted_number s n = components_from true n [] s

unfoldable pub or_raw : Text → Option Text → Text
or_raw raw none = raw
or_raw raw (some s) = s

unfoldable pub normalize_k8s_minor : Text → Text
normalize_k8s_minor raw = or_raw raw (leading_dotted_number (without (text "v") raw) 2)

unfoldable pub cilium_minor_of : Text → Text
cilium_minor_of version = or_raw version (leading_dotted_number version 2)

-- `trim_start_matches` of blanks, tabs and the given character.
unfoldable pub skip_blanks : ℕ → Text → Text
skip_blanks extra [] = []
skip_blanks extra (c ∷ s) =
    if c == b' ' || (c == b'\t' || c == extra) then skip_blanks extra s else c ∷ s

-- At least one separator was skipped.
unfoldable pub separated : ℕ → Text → Option Text
separated extra rest =
    let trimmed = skip_blanks extra rest in if len trimmed == len rest then none else some trimmed

unfoldable pub cilium_value : Text → Option Text
cilium_value line = elim (strip_prefix (text "--version") (trim_start line)) [
  | none ↦ none
  | some rest ↦ elim (separated b'=' rest) [
    | none ↦ none
    | some trimmed ↦ leading_dotted_number (without (text "v") trimmed) 3
  ]
]

unfoldable pub assigned_value : Text → Option Text
assigned_value after = elim (strip_prefix (text "K8S_VERSION") after) [
  | none ↦ none
  | some rest ↦ elim (strip_prefix (text "=") (skip_blanks b' ' rest)) [
    | none ↦ none
    | some value ↦ leading_dotted_number (without (text "v") (skip_blanks b' ' value)) 2
  ]
]

unfoldable pub k8s_value : Text → Option Text
k8s_value line = elim (strip_prefix (text "ARG") line) [
  | none ↦ none
  | some rest ↦ elim (separated b' ' rest) [ none ↦ none | some after ↦ assigned_value after ]
]

-- The first line with a value.
unfoldable pub first_value : (Text → Option Text) → List Text → Option Text
first_value value [] = none
first_value value (l ∷ ls) =
    let rest = first_value value ls in elim (value l) [ some v ↦ some v | none ↦ rest ]

unfoldable pub extract_cilium_pin : Text → Option Text
extract_cilium_pin content = first_value cilium_value (lines content)

unfoldable pub extract_k8s_pin : Text → Option Text
extract_k8s_pin content = first_value k8s_value (lines content)
