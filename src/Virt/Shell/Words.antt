-- ===== src/Virt/Shell/Words.antt =====
-- How a POSIX shell reads a command line of words, and what it reads of a quoted text.
use hummingbird_k8s.Base.{
  ℕ, Bool, true, false, ◌||◌, List, [], ◌∷◌, ◌++◌, ◌≡◌, refl, arith, ◌==◌, if◌then◌else◌, all,
  Option, none, some, append_assoc, append-nil, Bool-cases, inl, inr, ◌∙◌,
}
use hummingbird_k8s.Text.{Text, is_ascii_alphanumeric}
use hummingbird_k8s.Virt.Shell.{is_plain, escape_quotes, shell_quote}

-- The characters that stand for themselves outside quotes. Every other one may be an operator, an
-- expansion or a comment there, and the lexer refuses it.
unfoldable pub is_literal : ℕ → Bool
unfolding is_ascii_alphanumeric
is_literal c =
    is_ascii_alphanumeric c
    || (c == b'-'
        || c == b'_'
        || c == b'.'
        || c == b'/'
        || c == b':'
        || c == b'='
        || c == b','
        || c == b'+'
        || c == b'@'
        || c == b'%')

pub data Mode : Type 0 where
  between : Mode
  word quoted escaped : Text → Mode

abbrev pub word_then : Text → Option (List Text) → Option (List Text)
word_then w none = none
word_then w (some ws) = some (w ∷ ws)

-- The words of a command line, in the mode in which its text begins.
unfoldable pub lex : Mode → Text → Option (List Text)
lex between [] = some []
lex (word w) [] = some (w ∷ [])
lex (quoted w) [] = none
lex (escaped w) [] = none
lex between (c ∷ s) =
    let next = lex between s in
    let inside = lex (quoted []) s in
    let behind = lex (escaped []) s in
    let literal = lex (word (c ∷ [])) s in
    if c == b' '
    then next
    else if c == b'\''
    then inside
    else if c == b'\\'
    then behind
    else if is_literal c
    then literal
    else none
lex (word w) (c ∷ s) =
    let next = word_then w (lex between s) in
    let inside = lex (quoted w) s in
    let behind = lex (escaped w) s in
    let literal = lex (word (w ++ c ∷ [])) s in
    if c == b' '
    then next
    else if c == b'\''
    then inside
    else if c == b'\\'
    then behind
    else if is_literal c
    then literal
    else none
lex (quoted w) (c ∷ s) =
    let outside = lex (word w) s in
    let more = lex (quoted (w ++ c ∷ [])) s in if c == b'\'' then outside else more
lex (escaped w) (c ∷ s) = let more = lex (word (w ++ c ∷ [])) s in if c == b'\n' then none else more

-- The words of a whole command line; `none` if it is more than a list of words.
unfoldable pub shell_words : Text → Option (List Text)
unfolding lex
shell_words = lex between

-- A character that needs no quotes stands for itself.
record StandsForItself (c : ℕ) : Type 0 where
  not_space : (c == b' ') ≡ false
  not_quote : (c == b'\'') ≡ false
  not_backslash : (c == b'\\') ≡ false
  literal : is_literal c ≡ true

is_plain-StandsForItself : (c : ℕ) → is_plain c ≡ true → StandsForItself c
unfolding is_plain is_literal is_ascii_alphanumeric
is_plain-StandsForItself c h = record {
  not_space = ground arith;
  not_quote = ground arith;
  not_backslash = ground arith;
  literal = ground arith;
}

lex_literal :
    (w s : Text) (c : ℕ)
    → is_plain c ≡ true
    → (lex (word w) (c ∷ s) ≡ lex (word (w ++ c ∷ [])) s)
      × (lex between (c ∷ s) ≡ lex (word (c ∷ [])) s)
unfolding lex
lex_literal w s c h =
    let i = is_plain-StandsForItself c h in
    (
      rw (i.not_space, i.not_quote, i.not_backslash, i.literal),
      rw (i.not_space, i.not_quote, i.not_backslash, i.literal),
    )

lex-plain :
    (w s rest : Text) → all is_plain s ≡ true → lex (word w) (s ++ rest) ≡ lex (word (w ++ s)) rest
lex-plain w [] rest h = rw append-nil
lex-plain w (c ∷ s) rest h =
    ground (
      arith,
      lex_literal w (s ++ rest) c,
      lex-plain (w ++ c ∷ []) s rest,
      append_assoc w (c ∷ []) s,
    )

lex-escaped :
    (w s rest : Text) → lex (quoted w) (escape_quotes s ++ b'\'' ∷ rest) ≡ lex (word (w ++ s)) rest
unfolding lex escape_quotes
lex-escaped w [] rest = rw append-nil
lex-escaped w (c ∷ s) rest = elim (Bool-cases (c == b'\'')) [
  | inl e ↦ rw e (ground (arith, lex-escaped (w ++ c ∷ []) s rest, append_assoc w (c ∷ []) s))
  | inr e ↦ rw e (ground (arith, lex-escaped (w ++ c ∷ []) s rest, append_assoc w (c ∷ []) s))
]

-- Where a word may begin, a quoted text is read as one word, which is the text, whatever follows.
pub lex-shell_quote : (s rest : Text) → lex between (shell_quote s ++ rest) ≡ lex (word s) rest
unfolding shell_quote
lex-shell_quote [] rest = unfold lex in refl
lex-shell_quote (c ∷ s) rest = elim (Bool-cases (all is_plain (c ∷ s))) [
  | inl e ↦ rw e (ground (arith, lex_literal [] (s ++ rest) c, lex-plain (c ∷ []) s rest))
  | inr e ↦ rw e (unfold lex in rw append_assoc (lex-escaped [] (c ∷ s) rest))
]

-- A quoted text is exactly one word of the command line, the text itself, alone or with more words
-- behind it: no character of it ends the word, expands or begins another command.
pub shell_words-shell_quote :
    (s rest : Text)
    → (shell_words (shell_quote s) ≡ some (s ∷ []))
      × (shell_words (shell_quote s ++ b' ' ∷ rest) ≡ word_then s (shell_words rest))
unfolding shell_words
shell_words-shell_quote s rest = (
  rw (← append-nil (shell_quote s)) (lex-shell_quote s [] ∙ unfold lex in refl),
  lex-shell_quote s (b' ' ∷ rest) ∙ unfold lex in refl,
)
