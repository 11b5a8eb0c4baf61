-- ===== src/Config/Tokenizer/Arrays.antt =====
-- Comments inside an array that spans lines, in rust/crates/hbird-config/src/parser.rs.
use hummingbird_k8s.Base.{
  ℕ, suc, ◌+◌, List, [], ◌∷◌, ◌++◌, ◌≡◌, refl, ap, ◌∙◌, true, false, ◌||◌, arith, ok, Result, ◌>>=◌,
  some, All, length, append_assoc, append-nil, ◌==◌, all, not, ◌≢◌, zero,
}
use hummingbird_k8s.Text.{Text, split_once, contains_char, trim_start, is_whitespace, strip_prefix}
use hummingbird_k8s.Text.Split.{split_once-append, split_once-none}
use hummingbird_k8s.Config.Data.{Error, RawMap, insert, array}
use hummingbird_k8s.Config.Tokenizer.{
  Parsed, array_elements, bare_element, tokenize_array_body, array_lines, parse_array, parse_rhs,
  assignment, parse_line, tokenize_from, is_blank_or_comment, is_valid_key,
}
use hummingbird_k8s.Config.Tokenizer.RoundTrip.{is_valid_key-OpensLine}

-- A line without `)` that is blank or a comment.
pub record IsPassed (line : Text) : Type 0 where
  pub comment : is_blank_or_comment (trim_start line) ≡ true
  pub no_paren : contains_char b')' line ≡ false

-- A word without white space, quotes at its start and `)`.
pub record IsWord (w : Text) : Type 0 where
  pub no_space : all (λ c. not (is_whitespace c)) w ≡ true
  pub no_quote : (c : ℕ) (s : Text) → w ≡ c ∷ s → (c == b'"' || c == b'\'') ≡ false
  pub not_empty : w ≢ []
  pub no_paren : contains_char b')' w ≡ false

bare_element-word :
    (body : Text) (n : ℕ) (e w : Text)
    → all (λ c. not (is_whitespace c)) w ≡ true
    → bare_element body n e w ≡ ok ((e ++ w) ∷ [])
unfolding bare_element
bare_element-word body n e [] h = rw append-nil refl
bare_element-word body n e (c ∷ w) h =
    ground (arith, bare_element-word body n (e ++ c ∷ []) w, append_assoc e (c ∷ []) w)

array_elements-word :
    (body : Text) (n : ℕ) (w : Text) → IsWord w → array_elements body n w ≡ ok (w ∷ [])
unfolding array_elements
array_elements-word body n [] h = absurd (h.not_empty refl)
array_elements-word body n (c ∷ w) h =
    ground (arith, h.no_space, h.no_quote c w refl, bare_element-word body n (c ∷ []) w)

-- The text of the array: the space behind its first line, the comment's sign, and the word.
abbrev commented : Text → Text
commented w = b' ' ∷ b'#' ∷ b' ' ∷ w

commented-elements :
    (n : ℕ) (w : Text) → IsWord w → tokenize_array_body (commented w) n ≡ ok ((b'#' ∷ []) ∷ w ∷ [])
unfolding tokenize_array_body array_elements bare_element is_whitespace
commented-elements n w h = rw (array_elements-word (b' ' ∷ b'#' ∷ b' ' ∷ w) n w h) refl

array_lines-passed :
    (key body : Text) (n extra : ℕ) (cs rest : List Text)
    → All IsPassed cs
    → array_lines key n body extra (cs ++ rest) ≡ array_lines key n body (extra + length cs) rest
unfolding array_lines
array_lines-passed key body n extra [] rest h =
    ap (λ x. array_lines key n body x rest) (omega arith)
array_lines-passed key body n extra (c ∷ cs) rest (p, h) =
    rw (split_once-none b')' c p.no_paren, array_lines)
      (rw p.comment (
        array_lines-passed key body n (extra + 1) cs rest h
        ∙ ap (λ x. array_lines key n body x rest) (omega arith)))

-- The line `# WORD) ...`.
abbrev pub closing_comment : Text → Text → Text
closing_comment w after = b'#' ∷ b' ' ∷ (w ++ b')' ∷ after)

array_lines-closing :
    (key w after : Text) (n extra : ℕ) (rest : List Text)
    → IsWord w
    → array_lines key n (b' ' ∷ []) extra (closing_comment w after ∷ rest)
      ≡ ok ((b'#' ∷ []) ∷ w ∷ [], extra + 1)
unfolding array_lines contains_char
array_lines-closing key w after n extra rest h =
    rw (split_once-append b')' (b'#' ∷ b' ' ∷ w) after h.no_paren, array_lines)
      (rw (commented-elements (n + (extra + 1)) w h) refl)

-- The lines that an assignment has taken are passed over.
tokenize_from-skip :
    (n idx : ℕ) (taken : List Text) (last : Text) (rest : List Text) (out : RawMap)
    → n ≡ length taken + 1
    → tokenize_from n idx (taken ++ last ∷ rest) out ≡ tokenize_from 0 (idx + n) rest out
unfolding tokenize_from
tokenize_from-skip zero idx taken last rest out e = absurd (ground arith)
tokenize_from-skip (suc zero) idx [] last rest out e =
    ap (λ i. tokenize_from 0 i rest out) (omega arith)
tokenize_from-skip (suc (suc n)) idx [] last rest out e = absurd (ground arith)
tokenize_from-skip (suc n) idx (l ∷ taken) last rest out e =
    tokenize_from-skip n (idx + 1) taken last rest out (omega arith)
    ∙ ap (λ i. tokenize_from 0 i rest out) (omega arith)

abbrev pub opening : Text → Text
opening key = key ++ b'=' ∷ b'(' ∷ []

parse_line-opening :
    (key : Text) (n : ℕ) (rest : List Text)
    → is_valid_key key ≡ true
    → parse_line n (opening key) rest
      ≡ (array_lines key n (b' ' ∷ []) 0 rest >>= λ f. ok (some (key, array f.0), f.1))
unfolding parse_line assignment parse_rhs parse_array strip_prefix
parse_line-opening key n rest h =
    let o = is_valid_key-OpensLine key h in
    rw
      (
        o.not_trimmed (b'=' ∷ b'(' ∷ []),
        o.not_blank (b'=' ∷ b'(' ∷ []),
        split_once-append b'=' key (b'(' ∷ []) o.no_equals,
        h,
      )
      (unfold split_once in refl)

parse_line-closing :
    (key w after : Text) (n : ℕ) (cs rest : List Text)
    → is_valid_key key ≡ true
    → All IsPassed cs
    → IsWord w
    → parse_line n (opening key) (cs ++ closing_comment w after ∷ rest)
      ≡ ok (some (key, array ((b'#' ∷ []) ∷ w ∷ [])), 0 + length cs + 1)
parse_line-closing key w after n cs rest k h hw =
    parse_line-opening key n (cs ++ closing_comment w after ∷ rest) k
    ∙ ap
        (λ (r : Result Error (List Text × ℕ)).
          r >>= λ f. let p : Result Error Parsed = ok (some (key, array f.0), f.1) in p)
        (array_lines-passed key (b' ' ∷ []) n 0 cs (closing_comment w after ∷ rest) h
          ∙ array_lines-closing key w after n (0 + length cs) rest hw)

-- An array that opens behind its key, goes on with lines that are blank or comments without `)`, and
-- then has a comment `# WORD)`: the comment closes the array, which has the elements `#` and the word,
-- and the tokenizer goes on behind it, with the key's line and these elements in the map. What stands
-- behind the parenthesis is lost. The key is valid, and the word is not empty, has no white space and
-- no `)`, and does not begin with a quote.
pub tokenize_from-closing_comment :
    (key w after : Text) (idx : ℕ) (cs rest : List Text) (out : RawMap)
    → is_valid_key key ≡ true
    → All IsPassed cs
    → IsWord w
    → tokenize_from 0 idx (opening key ∷ (cs ++ closing_comment w after ∷ rest)) out
      ≡ tokenize_from 0
          (idx + (length cs + 2))
          rest
          (insert key (idx + 1, array ((b'#' ∷ []) ∷ w ∷ [])) out)
unfolding tokenize_from
tokenize_from-closing_comment key w after idx cs rest out k h hw =
    let m = insert key (idx + 1, array ((b'#' ∷ []) ∷ w ∷ [])) out in
    rw (parse_line-closing key w after (idx + 1) cs rest k h hw, tokenize_from)
      (tokenize_from-skip (0 + length cs + 1) (idx + 1) cs (closing_comment w after) rest m
          (omega arith)
        ∙ ap (λ i. tokenize_from 0 i rest m) (omega arith))
