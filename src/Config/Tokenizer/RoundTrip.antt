-- ===== src/Config/Tokenizer/RoundTrip.antt =====
-- The tokenizer of rust/crates/hbird-config/src/parser.rs on the lines of the writer in Printer.
use hummingbird_k8s.Base.{
  ℕ, ◌+◌, true, false, ◌||◌, List, [], ◌∷◌, ◌++◌, ◌≡◌, refl, ap, ◌∙◌, arith, some, Result, ok,
  ◌>>=◌, all, append_assoc, append-nil, ◌==◌,
}
use hummingbird_k8s.Text.{
  Text, contains_char, trim_start, is_whitespace, strip_prefix, lines, is_ascii_alphanumeric,
}
use hummingbird_k8s.Text.Split.{split_once-append, contains_char-append, lines-line}
use hummingbird_k8s.Config.Data.{Error, Value, scalar, array, RawMap, insert}
use hummingbird_k8s.Config.Tokenizer.{
  array_elements, quoted_element, tokenize_array_body, parse_array, parse_scalar, parse_rhs,
  parse_line, assignment, tokenize_from, tokenize, is_blank_or_comment, is_valid_key, Parsed,
}
use hummingbird_k8s.Config.Tokenizer.Printer.{
  print_elements, print_value, print_line, print_file, closing, IsElements, IsPrintable,
  ArePrintable, assigned,
}

-- Behind an opening quote: the element up to the closing quote, then the others.
quoted_element-append :
    (body : Text) (n quote : ℕ) (e v rest : Text)
    → contains_char quote v ≡ false
    → quoted_element body n quote e (v ++ quote ∷ rest)
      ≡ (array_elements body n rest >>= λ es. ok ((e ++ v) ∷ es))
unfolding quoted_element contains_char
quoted_element-append body n q e [] rest h = rw append-nil (ground arith)
quoted_element-append body n q e (c ∷ v) rest h =
    ground (arith, quoted_element-append body n q (e ++ c ∷ []) v rest, append_assoc e (c ∷ []) v)

array_elements-print :
    (body : Text) (n : ℕ) {vs : List Text}
    → IsElements vs
    → array_elements body n (print_elements vs) ≡ ok vs
unfolding array_elements print_elements is_whitespace
array_elements-print body n IsElements.nil = refl
array_elements-print body n (IsElements.cons {v} {vs} h t) =
    quoted_element-append body n b'"' [] v (b' ' ∷ print_elements vs) h.quotable.no_quote
    ∙ ap (λ r. r >>= λ es. ok (v ∷ es)) (array_elements-print body n t)

print_elements-no_paren :
    {vs : List Text} → IsElements vs → contains_char b')' (print_elements vs) ≡ false
unfolding print_elements contains_char
print_elements-no_paren IsElements.nil = refl
print_elements-no_paren (IsElements.cons {v} {vs} h t) = ground (
  arith,
  contains_char-append b')' v (b'"' ∷ b' ' ∷ print_elements vs),
  h.no_paren,
  print_elements-no_paren t,
)

print_elements-no_newline :
    {vs : List Text} → IsElements vs → contains_char b'\n' (print_elements vs) ≡ false
unfolding print_elements contains_char
print_elements-no_newline IsElements.nil = refl
print_elements-no_newline (IsElements.cons {v} {vs} h t) = ground (
  arith,
  contains_char-append b'\n' v (b'"' ∷ b' ' ∷ print_elements vs),
  h.quotable.no_newline,
  print_elements-no_newline t,
)

print_value-no_newline : (v : Value) → IsPrintable v → contains_char b'\n' (print_value v) ≡ false
unfolding print_value contains_char
print_value-no_newline (scalar v) h = ground (arith, h.no_newline)
print_value-no_newline (array vs) h = ground (arith, print_elements-no_newline h)

parse_array-print :
    (key : Text) (n : ℕ) (vs rest : List Text)
    → IsElements vs
    → parse_array key n (print_elements vs ++ b')' ∷ []) rest ≡ ok (vs, 0)
unfolding parse_array tokenize_array_body
parse_array-print key n vs rest h =
    rw (split_once-append b')' (print_elements vs) [] (print_elements-no_paren h), parse_array)
      (rw (array_elements-print (print_elements vs) n h))

parse_rhs-print :
    (key raw : Text) (n : ℕ) (v : Value) (rest : List Text)
    → IsPrintable v
    → parse_rhs key n raw (print_value v ++ closing v ∷ []) rest ≡ ok (some (key, v), 0)
unfolding parse_rhs print_value closing strip_prefix parse_scalar trim_start is_whitespace
    is_blank_or_comment
parse_rhs-print key raw n (scalar v) rest h = rw (split_once-append b'"' v [] h.no_quote) refl
parse_rhs-print key raw n (array vs) rest h =
    ap
      (λ (r : Result Error (List Text × ℕ)).
        r >>= λ found. let p : Result Error Parsed = ok (some (key, array found.0), found.1) in p)
      (parse_array-print key n vs rest h)

-- The characters of a key are none of those that end a line, a key or the white space before it.
key_chars-free :
    (c : ℕ) (s : Text)
    → (is_ascii_alphanumeric c || c == b'_') ≡ false
    → all (λ d. is_ascii_alphanumeric d || d == b'_') s ≡ true
    → contains_char c s ≡ false
unfolding contains_char is_ascii_alphanumeric
key_chars-free c [] h k = refl
key_chars-free c (d ∷ s) h k = ground (arith, key_chars-free c s)

-- A valid key opens a line and holds neither its end nor the sign behind the key.
pub record OpensLine (k : Text) : Type 0 where
  pub no_equals : contains_char b'=' k ≡ false
  pub no_newline : contains_char b'\n' k ≡ false
  pub not_trimmed : (rest : Text) → trim_start (k ++ rest) ≡ k ++ rest
  pub not_blank : (rest : Text) → is_blank_or_comment (k ++ rest) ≡ false

pub is_valid_key-OpensLine : (k : Text) → is_valid_key k ≡ true → OpensLine k
unfolding is_valid_key contains_char trim_start is_whitespace is_blank_or_comment
    is_ascii_alphanumeric
is_valid_key-OpensLine [] h = cc
is_valid_key-OpensLine (c ∷ s) h = record {
  no_equals = ground (arith, key_chars-free b'=' s);
  no_newline = ground (arith, key_chars-free b'\n' s);
  not_trimmed = λ rest. ground arith;
  not_blank = λ rest. ground arith;
}

parse_line-print :
    (k : Text) (v : Value) (n : ℕ) (rest : List Text)
    → is_valid_key k ≡ true
    → IsPrintable v
    → parse_line n (print_line (k, v)) rest ≡ ok (some (k, v), 0)
unfolding parse_line assignment print_line
parse_line-print k v n rest h p =
    let o = is_valid_key-OpensLine k h in
    rw
      (
        o.not_trimmed (b'=' ∷ (print_value v ++ closing v ∷ [])),
        o.not_blank (b'=' ∷ (print_value v ++ closing v ∷ [])),
        split_once-append b'=' k (print_value v ++ closing v ∷ []) o.no_equals,
        h,
      )
      (parse_rhs-print k _ n v rest p)

closing-plain : (v : Value) → ((closing v == b'\n') ≡ false) × ((closing v == b'\r') ≡ false)
unfolding closing
closing-plain (scalar v) = (refl, refl)
closing-plain (array vs) = (refl, refl)

lines-print :
    (k : Text) (v : Value) (rest : Text)
    → is_valid_key k ≡ true
    → IsPrintable v
    → lines (print_line (k, v) ++ b'\n' ∷ rest) ≡ print_line (k, v) ∷ lines rest
unfolding print_line contains_char
lines-print k v rest h p =
    let o = is_valid_key-OpensLine k h in
    rw (← append_assoc k (b'=' ∷ print_value v) (closing v ∷ [])) (
      lines-line (k ++ (b'=' ∷ print_value v)) rest (closing v)
        (ground (
          arith,
          o.no_newline,
          contains_char-append b'\n' (k ++ (b'=' ∷ print_value v)) (closing v ∷ []),
          contains_char-append b'\n' k (b'=' ∷ print_value v),
          print_value-no_newline v p,
          closing-plain v,
        ))
        (closing-plain v).1)

tokenize_from-print :
    (idx : ℕ) (out : RawMap) {rest : List (Text × Value)}
    → ArePrintable rest
    → tokenize_from 0 idx (lines (print_file rest)) out ≡ ok (assigned idx rest out)
unfolding tokenize_from print_file assigned
tokenize_from-print idx out ArePrintable.nil = unfold lines in refl
tokenize_from-print idx out (ArePrintable.cons {k} {v} {rest} h p t) =
    rw (lines-print k v (print_file rest) h p) (
      rw (parse_line-print k v (idx + 1) (lines (print_file rest)) h p, tokenize_from)
        (tokenize_from-print (idx + 1) (insert k (idx + 1, v) out) t))

-- Assignments with valid keys, and values without double quotes and line feeds, the elements of arrays
-- without `)` besides, are read back from their printed file: the map holds what assigning them in
-- order gives, each with the number of its line, and a later assignment of a key replaces an earlier
-- one.
pub tokenize-print_file :
    (written : List (Text × Value))
    → ArePrintable written
    → tokenize (print_file written) ≡ ok (assigned 0 written [])
unfolding tokenize
tokenize-print_file written h = tokenize_from-print 0 [] h
