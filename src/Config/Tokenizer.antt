-- ===== src/Config/Tokenizer.antt =====
-- rust/crates/hbird-config/src/parser.rs, from `tokenize` to `tokenize_array_body`: the walk over
-- the lines that yields the map of assignments. A slice that starts behind a found character is
-- the second piece of a split.
pub mod Arrays
pub mod Quoted
pub mod Lines
pub mod Printer
pub mod RoundTrip
use hummingbird_k8s.Base.{
  ℕ, zero, suc, ◌+◌, ◌<◌, Bool, true, false, ◌&&◌, ◌||◌, not, List, [], ◌∷◌, ◌++◌, Option, none,
  some, ltb, ◌==◌, if◌then◌else◌, is_empty, all, Result, ok, err, ◌>>=◌, ◌>>◌,
}
use hummingbird_k8s.Text.{
  Text, text, len, is_whitespace, is_ascii_whitespace, is_ascii_alphabetic, is_ascii_alphanumeric,
  strip_prefix, split_once, trim_start, trim_end, lines,
}
use hummingbird_k8s.Config.Data.{
  Error, unrecognized_line, unterminated_array, unterminated_quote, trailing_content, Value, scalar,
  array, RawMap, insert,
}

abbrev pub max_key_len : ℕ
max_key_len = 128

-- Empty, or a comment.
unfoldable pub is_blank_or_comment : Text → Bool
is_blank_or_comment [] = true
is_blank_or_comment (c ∷ s) = c == b'#'

unfoldable pub is_valid_key : Text → Bool
unfolding len is_ascii_alphabetic is_ascii_alphanumeric
is_valid_key [] = false
is_valid_key (c ∷ s) =
    not (ltb max_key_len (len (c ∷ s)))
    && ((is_ascii_alphabetic c || c == b'_') && all (λ d. is_ascii_alphanumeric d || d == b'_') s)

-- The flag tells whether the character before the text is absent or ASCII whitespace.
strip_comment_from : Bool → Text → Text
strip_comment_from boundary [] = []
strip_comment_from boundary (c ∷ s) =
    if c == b'#' && boundary then [] else c ∷ strip_comment_from (is_ascii_whitespace c) s

unfoldable pub strip_trailing_comment : Text → Text
unfolding strip_comment_from
strip_trailing_comment s = strip_comment_from true s

-- `rest[end + 1..]`, the text behind the closing quote, is the third argument.
check_trailing_after_quote : ℕ → Text → Text → Result Error (Unit {0})
check_trailing_after_quote line_no raw_line tail =
    if is_blank_or_comment (trim_start tail) then ok tt else err (trailing_content line_no raw_line)

-- A scalar behind its opening quote.
quoted_scalar : ℕ → Text → Option (Text × Text) → Result Error Text
unfolding check_trailing_after_quote
quoted_scalar line_no raw_line none = err (unterminated_quote line_no raw_line)
quoted_scalar line_no raw_line (some (inside, tail)) = do
  check_trailing_after_quote line_no raw_line tail
  ok inside

scalar_text : ℕ → Text → Text → Result Error Text
unfolding quoted_scalar strip_trailing_comment trim_end
scalar_text line_no raw_line [] = ok []
scalar_text line_no raw_line (c ∷ rest) =
    if c == b'"' || c == b'\''
    then quoted_scalar line_no raw_line (split_once c rest)
    else ok (trim_end (strip_trailing_comment (c ∷ rest)))

unfoldable pub parse_scalar : ℕ → Text → Text → Result Error Text
unfolding scalar_text
parse_scalar line_no raw_line rhs = scalar_text line_no raw_line (trim_start rhs)

-- `tokenize_array_body`: the loop, and its two inner loops over a quoted and a bare element.
-- `body` is the whole text, which an error quotes.
unfoldable mutual
  pub array_elements : Text → ℕ → Text → Result Error (List Text)
  array_elements body line_no [] = ok []
  array_elements body line_no (c ∷ s) =
      let skipped = array_elements body line_no s in
      let quoted = quoted_element body line_no c [] s in
      let bare = bare_element body line_no (c ∷ []) s in
      if is_whitespace c then skipped else if c == b'"' || c == b'\'' then quoted else bare

  pub quoted_element : Text → ℕ → ℕ → Text → Text → Result Error (List Text)
  quoted_element body line_no quote element [] = err (unterminated_quote line_no body)
  quoted_element body line_no quote element (c ∷ s) =
      let others = array_elements body line_no s in
      let more = quoted_element body line_no quote (element ++ c ∷ []) s in
      if c == quote then others >>= (λ es. ok (element ∷ es)) else more

  pub bare_element : Text → ℕ → Text → Text → Result Error (List Text)
  bare_element body line_no element [] = ok (element ∷ [])
  bare_element body line_no element (c ∷ s) =
      let others = array_elements body line_no s in
      let more = bare_element body line_no (element ++ c ∷ []) s in
      if is_whitespace c then others >>= (λ es. ok (element ∷ es)) else more

unfoldable pub tokenize_array_body : Text → ℕ → Result Error (List Text)
unfolding array_elements
tokenize_array_body body line_no = array_elements body line_no body

-- The elements of a closed array, with the number of lines taken behind the opening line.
abbrev pub close_array : Text → ℕ → ℕ → Result Error (List Text × ℕ)
close_array body line_no extra =
    tokenize_array_body body line_no >>= λ elements. ok (elements, extra)

-- The loop over the lines behind the opening one; `extra` lines are taken.
unfoldable pub array_lines : Text → ℕ → Text → ℕ → List Text → Result Error (List Text × ℕ)
array_lines key open_line body extra [] = err (unterminated_array key open_line)
array_lines key open_line body extra (line ∷ rest) =
    let skipped = array_lines key open_line body (extra + 1) rest in
    let more = array_lines key open_line (body ++ (line ++ b' ' ∷ [])) (extra + 1) rest in
    elim (split_once b')' line) [
      | some (inside, after) ↦ close_array (body ++ inside) (open_line + (extra + 1)) (extra + 1)
      | none ↦ if is_blank_or_comment (trim_start line) then skipped else more
    ]

unfoldable pub parse_array : Text → ℕ → Text → List Text → Result Error (List Text × ℕ)
unfolding array_lines
parse_array key open_line first_line_rest rest_lines = elim (split_once b')' first_line_rest) [
  | some (inside, after) ↦ close_array inside open_line 0
  | none ↦ array_lines key open_line (first_line_rest ++ b' ' ∷ []) 0 rest_lines
]

-- An assignment and the number of lines that it takes behind its own.
abbrev pub Parsed : Type 0
Parsed = Option (Text × Value) × ℕ

parse_rhs : Text → ℕ → Text → Text → List Text → Result Error Parsed
unfolding parse_array parse_scalar
parse_rhs key line_no raw rhs rest_lines = elim (strip_prefix (b'(' ∷ []) rhs) [
  | some rest ↦
      parse_array key line_no rest rest_lines >>= λ found. ok (some (key, array found.0), found.1)
  | none ↦ parse_scalar line_no raw rhs >>= λ value. ok (some (key, scalar value), 0)
]

assignment : ℕ → Text → List Text → Option (Text × Text) → Result Error Parsed
unfolding parse_rhs is_valid_key
assignment line_no raw rest_lines none = err (unrecognized_line line_no raw)
assignment line_no raw rest_lines (some (key, rhs)) =
    if is_valid_key key
    then parse_rhs key line_no raw rhs rest_lines
    else err (unrecognized_line line_no raw)

-- One round of `tokenize`: line `line_no`, with the lines behind it.
unfoldable pub parse_line : ℕ → Text → List Text → Result Error Parsed
unfolding assignment
parse_line line_no raw rest_lines =
    if is_blank_or_comment (trim_start raw)
    then ok (none, 0)
    else assignment line_no raw rest_lines (split_once b'=' (trim_start raw))

abbrev pub record_assignment : ℕ → Option (Text × Value) → RawMap → RawMap
record_assignment line_no none out = out
record_assignment line_no (some (key, value)) out = insert key (line_no, value) out

-- The `while` loop at line index `idx`. `idx += 1 + consumed_extra_lines` passes over as many
-- further lines: their number is the first argument.
unfoldable pub tokenize_from : ℕ → ℕ → List Text → RawMap → Result Error RawMap
tokenize_from skip idx [] out = ok out
tokenize_from (suc skip) idx (raw ∷ rest) out = tokenize_from skip (idx + 1) rest out
tokenize_from zero idx (raw ∷ rest) out = parse_line (idx + 1) raw rest >>= λ parsed.
    tokenize_from parsed.1 (idx + 1) rest (record_assignment (idx + 1) parsed.0 out)

unfoldable pub tokenize : Text → Result Error RawMap
unfolding tokenize_from
tokenize input = tokenize_from 0 0 (lines input) []
