-- ===== src/Text.antt =====
-- Texts of the program: `&str` and `String` as lists of Unicode scalar values, and the functions
-- of Rust's `str` and `char` that the program calls. A byte offset of the source that only cuts a
-- text in two is modelled by the two pieces.
pub mod Equality
pub mod Split
pub mod Numbers
use Prim.Native.Char.{code}
use hummingbird_k8s.Base.{
  ℕ, zero, suc, ◌+◌, ◌<◌, String, Bool, true, false, not, ◌&&◌, ◌||◌, Option, none, some, List, [],
  ◌∷◌, ◌++◌, ◌==◌, ltb, leb, within, if◌then◌else◌,
}

abbrev pub Text : Type 0
Text = List ℕ

-- A string literal of the source.
unfoldable pub text : String → Text
text String.[] = []
text (String.◌∷◌ c s) = code c ∷ text s

-- `char::is_whitespace`: the Unicode property White_Space.
unfoldable pub is_whitespace : ℕ → Bool
is_whitespace c =
    within 9 13 c
    || c == 0x20
    || c == 0x85
    || c == 0xA0
    || c == 0x1680
    || within 0x2000 0x200A c
    || c == 0x2028
    || c == 0x2029
    || c == 0x202F
    || c == 0x205F
    || c == 0x3000

-- `u8::is_ascii_whitespace`, which leaves out the vertical tab.
unfoldable pub is_ascii_whitespace : ℕ → Bool
is_ascii_whitespace c = c == 0x20 || c == 9 || c == 10 || c == 12 || c == 13

unfoldable pub is_ascii_digit : ℕ → Bool
is_ascii_digit c = within b'0' b'9' c

unfoldable pub is_ascii_alphabetic : ℕ → Bool
is_ascii_alphabetic c = within b'A' b'Z' c || within b'a' b'z' c

unfoldable pub is_ascii_alphanumeric : ℕ → Bool
unfolding is_ascii_alphabetic is_ascii_digit
is_ascii_alphanumeric c = is_ascii_alphabetic c || is_ascii_digit c

-- `str::len`: the number of UTF-8 bytes.
len_utf8 : ℕ → ℕ
len_utf8 c = if ltb c 0x80 then 1 else if ltb c 0x800 then 2 else if ltb c 0x10000 then 3 else 4

unfoldable pub len : Text → ℕ
unfolding len_utf8
len [] = 0
len (c ∷ s) = len_utf8 c + len s

unfoldable pub eq : Text → Text → Bool
eq [] [] = true
eq (c ∷ s) (d ∷ t) = c == d && eq s t
eq _ _ = false

-- `Ord` of `str`: lexicographic, in bytes and in scalar values alike.
unfoldable pub le : Text → Text → Bool
le [] t = true
le (c ∷ s) [] = false
le (c ∷ s) (d ∷ t) = ltb c d || (c == d && le s t)

unfoldable pub strip_prefix : Text → Text → Option Text
strip_prefix [] s = some s
strip_prefix (p ∷ ps) [] = none
strip_prefix (p ∷ ps) (c ∷ s) = if p == c then strip_prefix ps s else none

unfoldable pub starts_with : Text → Text → Bool
starts_with [] s = true
starts_with (p ∷ ps) [] = false
starts_with (p ∷ ps) (c ∷ s) = p == c && starts_with ps s

unfoldable pub contains_char : ℕ → Text → Bool
contains_char c [] = false
contains_char c (d ∷ s) = d == c || contains_char c s

-- `str::contains` on a text.
unfoldable pub contains : Text → Text → Bool
unfolding starts_with
contains p [] = starts_with p []
contains p (c ∷ s) = starts_with p (c ∷ s) || contains p s

abbrev pub cons_left : ℕ → Option (Text × Text) → Option (Text × Text)
cons_left c none = none
cons_left c (some (l, r)) = some (c ∷ l, r)

-- `find(c)` with the slices before and after the found character; also `split_once(c)`.
unfoldable pub split_once : ℕ → Text → Option (Text × Text)
split_once c [] = none
split_once c (d ∷ s) = if d == c then some ([], s) else cons_left d (split_once c s)

abbrev pub or_split : Option (Text × Text) → Option (Text × Text) → Option (Text × Text)
or_split none o = o
or_split (some p) o = some p

-- `rsplit_once(c)`: at the last occurrence.
unfoldable pub rsplit_once : ℕ → Text → Option (Text × Text)
rsplit_once c [] = none
rsplit_once c (d ∷ s) =
    or_split (cons_left d (rsplit_once c s)) (if d == c then some ([], s) else none)

unfoldable pub trim_start : Text → Text
trim_start [] = []
trim_start (c ∷ s) = if is_whitespace c then trim_start s else c ∷ s

-- Drops the longest suffix of characters that pass the test.
abbrev pub trim_cons : (ℕ → Bool) → ℕ → Text → Text
trim_cons p c [] = if p c then [] else c ∷ []
trim_cons p c (d ∷ s) = c ∷ d ∷ s

unfoldable pub trim_end_by : (ℕ → Bool) → Text → Text
trim_end_by p [] = []
trim_end_by p (c ∷ s) = trim_cons p c (trim_end_by p s)

unfoldable pub trim_end : Text → Text
unfolding trim_end_by
trim_end s = trim_end_by is_whitespace s

unfoldable pub trim : Text → Text
unfolding trim_start trim_end
trim s = trim_end (trim_start s)

unfoldable pub trim_end_matches : ℕ → Text → Text
unfolding trim_end_by
trim_end_matches c s = trim_end_by (λ d. d == c) s

abbrev pub cons_head : ℕ → List Text → List Text
cons_head c [] = (c ∷ []) ∷ []
cons_head c (l ∷ ls) = (c ∷ l) ∷ ls

-- `split(c)`: one piece more than there are separators.
unfoldable pub split : ℕ → Text → List Text
split c [] = [] ∷ []
split c (d ∷ s) = let rest = split c s in if d == c then [] ∷ rest else cons_head d rest

-- A line feed ends a line, and a carriage return just before it belongs to the line's end.
strip_cr : Text → Text
strip_cr [] = []
strip_cr (c ∷ []) = if c == b'\r' then [] else c ∷ []
strip_cr (c ∷ d ∷ s) = c ∷ strip_cr (d ∷ s)

finish_line : Text → List Text
finish_line [] = []
finish_line (c ∷ s) = (c ∷ s) ∷ []

lines_from : Text → Text → List Text
lines_from line [] = finish_line line
lines_from line (c ∷ s) =
    let next = lines_from [] s in
    let more = lines_from (line ++ c ∷ []) s in if c == b'\n' then strip_cr line ∷ next else more

-- `str::lines`.
unfoldable pub lines : Text → List Text
unfolding lines_from strip_cr finish_line
lines s = lines_from [] s

words_from : Text → Text → List Text
words_from word [] = finish_line word
words_from word (c ∷ s) =
    let next = words_from [] s in
    let more = words_from (word ++ c ∷ []) s in
    if is_whitespace c then finish_line word ++ next else more

-- `str::split_whitespace`.
unfoldable pub split_whitespace : Text → List Text
unfolding words_from finish_line
split_whitespace s = words_from [] s

unfoldable pub to_ascii_lowercase : Text → Text
to_ascii_lowercase [] = []
to_ascii_lowercase (c ∷ s) = (if within b'A' b'Z' c then c + 32 else c) ∷ to_ascii_lowercase s

unfoldable pub join : Text → List Text → Text
join sep [] = []
join sep (s ∷ []) = s
join sep (s ∷ t ∷ ss) = s ++ (sep ++ join sep (t ∷ ss))
