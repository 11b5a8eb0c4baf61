-- ===== src/Text/Split.antt =====
-- Laws of the functions that cut texts.
use hummingbird_k8s.Base.{
  ℕ, false, ◌||◌, [], ◌∷◌, ◌++◌, ◌≡◌, refl, ap, ◌∙◌, arith, ◌==◌, Option, none, some, append_assoc,
  append-nil, All, if◌then◌else◌, Bool, true,
}
use hummingbird_k8s.Text.{
  Text, contains_char, split_once, rsplit_once, strip_prefix, lines, lines_from, strip_cr,
  finish_line,
}

-- The pieces around the first occurrence.
pub split_once-append :
    (c : ℕ) (l r : Text) → contains_char c l ≡ false → split_once c (l ++ c ∷ r) ≡ some (l, r)
unfolding split_once contains_char
split_once-append c [] r h = ground arith
split_once-append c (d ∷ l) r h = ground (arith, split_once-append c l r)

pub split_once-none : (c : ℕ) (s : Text) → contains_char c s ≡ false → split_once c s ≡ none
unfolding split_once contains_char
split_once-none c [] h = refl
split_once-none c (d ∷ s) h = ground (arith, split_once-none c s)

pub split_once-none_inv : (c : ℕ) (s : Text) → split_once c s ≡ none → contains_char c s ≡ false
unfolding split_once contains_char
split_once-none_inv c [] h = refl
split_once-none_inv c (d ∷ s) h = ground (arith, split_once-none_inv c s)

pub rsplit_once-none : (c : ℕ) (s : Text) → contains_char c s ≡ false → rsplit_once c s ≡ none
unfolding rsplit_once contains_char
rsplit_once-none c [] h = refl
rsplit_once-none c (d ∷ s) h = ground (arith, rsplit_once-none c s)

pub rsplit_once-append :
    (c : ℕ) (l r : Text) → contains_char c r ≡ false → rsplit_once c (l ++ c ∷ r) ≡ some (l, r)
unfolding rsplit_once
rsplit_once-append c [] r h = ground (arith, rsplit_once-none c r)
rsplit_once-append c (d ∷ l) r h = ground (arith, rsplit_once-append c l r)

pub contains_char-append :
    (c : ℕ) (s t : Text) → contains_char c (s ++ t) ≡ (contains_char c s || contains_char c t)
unfolding contains_char
contains_char-append c [] t = refl
contains_char-append c (d ∷ s) t = ground (arith, contains_char-append c s t)

pub strip_prefix-append : (p s : Text) → strip_prefix p (p ++ s) ≡ some s
unfolding strip_prefix
strip_prefix-append [] s = refl
strip_prefix-append (c ∷ p) s = ground (arith, strip_prefix-append p s)

-- A successful split gives back the text, and the left piece is free of the separator.
abbrev pub Splits : ℕ → Text → Option (Text × Text) → Type 0
Splits c s none = contains_char c s ≡ false
Splits c s (some (l, r)) = (s ≡ l ++ c ∷ r) × (contains_char c l ≡ false)

pub split_once-Splits : (c : ℕ) (s : Text) → Splits c s (split_once c s)
unfolding split_once contains_char
split_once-Splits c [] = refl
split_once-Splits c (d ∷ s) = ground (arith, split_once-Splits c s)

-- A line of text, ended by a line feed, is the first line.
lines_from-line :
    (line l rest : Text)
    → contains_char b'\n' l ≡ false
    → lines_from line (l ++ b'\n' ∷ rest) ≡ strip_cr (line ++ l) ∷ lines_from [] rest
unfolding lines_from contains_char
lines_from-line line [] rest h = rw append-nil refl
lines_from-line line (c ∷ l) rest h =
    ground (arith, lines_from-line (line ++ c ∷ []) l rest, append_assoc line (c ∷ []) l)

strip_cr-append : (l : Text) (c : ℕ) → (c == b'\r') ≡ false → strip_cr (l ++ c ∷ []) ≡ l ++ c ∷ []
unfolding strip_cr
strip_cr-append [] c h = ground arith
strip_cr-append (d ∷ []) c h = ground arith
strip_cr-append (d ∷ e ∷ l) c h = ap (◌∷◌ d) (strip_cr-append (e ∷ l) c h)

strip_cr-free : (l : Text) → contains_char b'\r' l ≡ false → strip_cr l ≡ l
unfolding strip_cr contains_char
strip_cr-free [] h = refl
strip_cr-free (c ∷ []) h = ground arith
strip_cr-free (c ∷ d ∷ l) h = ap (◌∷◌ c) (strip_cr-free (d ∷ l) (ground arith))

-- A line without the characters of a line's end comes back whole.
pub lines-free :
    (l rest : Text)
    → contains_char b'\n' l ≡ false
    → contains_char b'\r' l ≡ false
    → lines (l ++ b'\n' ∷ rest) ≡ l ∷ lines rest
unfolding lines
lines-free l rest h k =
    lines_from-line [] l rest h ∙ ap (λ s. s ∷ lines_from [] rest) (strip_cr-free l k)

-- Every line of a text without carriage returns is free of both characters of a line's end.
abbrev pub IsLine : Text → Type 0
IsLine l = (contains_char b'\n' l ≡ false) × (contains_char b'\r' l ≡ false)

lines_from-IsLine :
    (line s : Text) → IsLine line → contains_char b'\r' s ≡ false → All IsLine (lines_from line s)
unfolding lines_from contains_char
lines_from-IsLine [] [] h k = unfold finish_line in tt
lines_from-IsLine (c ∷ line) [] h k = unfold finish_line in (h, tt)
lines_from-IsLine line (c ∷ s) h k =
    go (c == b'\n') refl (lines_from-IsLine [] s (refl, refl) (ground arith))
      (λ free. lines_from-IsLine (line ++ c ∷ []) s free (ground arith))
  where
    go :
        (b : Bool)
        → (c == b'\n') ≡ b
        → All IsLine (lines_from [] s)
        → (IsLine (line ++ c ∷ []) → All IsLine (lines_from (line ++ c ∷ []) s))
        → All IsLine (if b then strip_cr line ∷ lines_from [] s else lines_from (line ++ c ∷ []) s)
    go true e next more = (rw (strip_cr-free line h.1) h, next)
    go false e next more = more (
      ground (arith, contains_char-append b'\n' line (c ∷ [])),
      ground (arith, contains_char-append b'\r' line (c ∷ [])),
    )

pub lines-IsLine : (s : Text) → contains_char b'\r' s ≡ false → All IsLine (lines s)
unfolding lines
lines-IsLine s h = lines_from-IsLine [] s (unfold contains_char in (refl, refl)) h

-- A line that ends in another character than a carriage return comes back whole.
pub lines-line :
    (l rest : Text) (c : ℕ)
    → contains_char b'\n' (l ++ c ∷ []) ≡ false
    → (c == b'\r') ≡ false
    → lines ((l ++ c ∷ []) ++ b'\n' ∷ rest) ≡ (l ++ c ∷ []) ∷ lines rest
unfolding lines
lines-line l rest c h k =
    lines_from-line [] (l ++ c ∷ []) rest h
    ∙ ap (λ s. s ∷ lines_from [] rest) (strip_cr-append l c k)

-- Neither piece of a split holds the character.
abbrev pub PiecesFree : ℕ → Option (Text × Text) → Type 0
PiecesFree b none = Unit
PiecesFree b (some (l, r)) = (contains_char b l ≡ false) × (contains_char b r ≡ false)

pub split_once-free :
    (b c : ℕ) (s : Text) → contains_char b s ≡ false → PiecesFree b (split_once c s)
unfolding split_once contains_char
split_once-free b c [] h = tt
split_once-free b c (d ∷ s) h = ground (arith, split_once-free b c s)

pub rsplit_once-free :
    (b c : ℕ) (s : Text) → contains_char b s ≡ false → PiecesFree b (rsplit_once c s)
unfolding rsplit_once contains_char
rsplit_once-free b c [] h = tt
rsplit_once-free b c (d ∷ s) h = ground (arith, rsplit_once-free b c s)

pub strip_prefix-free :
    (b : ℕ) (p s t : Text)
    → strip_prefix p s ≡ some t
    → contains_char b s ≡ false
    → contains_char b t ≡ false
unfolding strip_prefix contains_char
strip_prefix-free b [] s t e h = ground arith
strip_prefix-free b (c ∷ p) [] t e h = cc
strip_prefix-free b (c ∷ p) (d ∷ s) t e h = ground (arith, strip_prefix-free b p s t)
