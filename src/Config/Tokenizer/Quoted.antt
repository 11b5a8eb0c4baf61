-- ===== src/Config/Tokenizer/Quoted.antt =====
-- The text that an error in an array quotes, in rust/crates/hbird-config/src/parser.rs.
use hummingbird_k8s.Base.{
  ℕ, zero, suc, ◌+◌, ◌<◌, Bool, true, false, List, [], ◌∷◌, ◌++◌, ◌≡◌, refl, arith, inl, inr,
  Result, ok, err, ◌>>=◌, length, Option-cases, if◌then◌else◌,
}
use hummingbird_k8s.Text.{Text, split_once, contains_char, trim_start}
use hummingbird_k8s.Text.Split.{split_once-none_inv, split_once-Splits}
use hummingbird_k8s.Config.Data.{Error, unterminated_array, unterminated_quote}
use hummingbird_k8s.Config.Tokenizer.{
  array_elements, quoted_element, bare_element, tokenize_array_body, array_lines, parse_array,
  close_array, is_blank_or_comment,
}

-- An array body fails only at a quote that is not closed.
abbrev Unclosed {ℓ} : {A : Type ℓ} → Text → ℕ → Result Error A → Type 0
Unclosed body n (ok a) = Unit
Unclosed body n (err e) = e ≡ unterminated_quote n body

Unclosed-bind {ℓ κ} :
    {A : Type ℓ} {B : Type κ} (body : Text) (n : ℕ) (m : Result Error A) (f : A → B)
    → Unclosed body n m
    → Unclosed body n (m >>= λ a. ok (f a))
Unclosed-bind body n (ok a) f h = tt
Unclosed-bind body n (err e) f h = h

mutual
  unfolding array_elements quoted_element bare_element

  array_elements-Unclosed :
      (body : Text) (n : ℕ) (s : Text) → Unclosed body n (array_elements body n s)
  array_elements-Unclosed body n [] = tt
  array_elements-Unclosed body n (c ∷ s) = ground (
    arith,
    array_elements-Unclosed body n s,
    quoted_element-Unclosed body n c [] s,
    bare_element-Unclosed body n (c ∷ []) s,
  )

  quoted_element-Unclosed :
      (body : Text) (n quote : ℕ) (e s : Text) → Unclosed body n (quoted_element body n quote e s)
  quoted_element-Unclosed body n q e [] = refl
  quoted_element-Unclosed body n q e (c ∷ s) = ground (
    arith,
    Unclosed-bind body n (array_elements body n s) (λ es. e ∷ es)
        (array_elements-Unclosed body n s),
    quoted_element-Unclosed body n q (e ++ c ∷ []) s,
  )

  bare_element-Unclosed :
      (body : Text) (n : ℕ) (e s : Text) → Unclosed body n (bare_element body n e s)
  bare_element-Unclosed body n e [] = tt
  bare_element-Unclosed body n e (c ∷ s) = ground (
    arith,
    Unclosed-bind body n (array_elements body n s) (λ es. e ∷ es)
        (array_elements-Unclosed body n s),
    bare_element-Unclosed body n (e ++ c ∷ []) s,
  )

abbrev pub Fails {ℓ} : {A : Type ℓ} → (Error → Type 0) → Result Error A → Type 0
Fails P (ok a) = Unit
Fails P (err e) = P e

pub Fails-bind {ℓ κ} :
    {A : Type ℓ} {B : Type κ} (P : Error → Type 0) (m : Result Error A) (f : A → B)
    → Fails P m
    → Fails P (m >>= λ a. ok (f a))
Fails-bind P (ok a) f h = tt
Fails-bind P (err e) f h = h

pub Fails-map {ℓ} :
    {A : Type ℓ} {P Q : Error → Type 0} (r : Result Error A)
    → ((e : Error) → P e → Q e)
    → Fails P r
    → Fails Q r
Fails-map (ok a) f h = tt
Fails-map (err e) f h = f e h

pub Fails-then {ℓ κ} :
    {A : Type ℓ} {B : Type κ} (P : Error → Type 0) (m : Result Error A) (f : A → Result Error B)
    → Fails P m
    → ((a : A) → Fails P (f a))
    → Fails P (m >>= f)
Fails-then P (ok a) f h k = k a
Fails-then P (err e) f h k = h

-- Behind a line of the array.
abbrev pub grown : Text → Text → Text
grown body line =
    if is_blank_or_comment (trim_start line) then body else body ++ (line ++ b' ' ∷ [])

-- The text `r` of an array that is closed `k` lines further on: the text so far, each further line
-- and a space unless the line is blank or a comment, and the closing line up to its first `)`.
abbrev pub ArrayBody : Text → List Text → ℕ → Text → Type 0
ArrayBody body [] k r = ⊥
ArrayBody body (line ∷ rest) zero r =
    (l : Text) × (after : Text) × (line ≡ l ++ b')' ∷ after)
    × (contains_char b')' l ≡ false)
    × (r ≡ body ++ l)
ArrayBody body (line ∷ rest) (suc k) r =
    (contains_char b')' line ≡ false) × ArrayBody (grown body line) rest k r

-- The text `r` of an array that opens in line `n` before `first` and is closed in line `m`.
pub data InArray (n : ℕ) (first : Text) (rest : List Text) (m : ℕ) (r : Text) : Type 0 where
  on_line :
      (after : Text)
      → m ≡ n
      → first ≡ r ++ b')' ∷ after
      → contains_char b')' r ≡ false
      → InArray n first rest m r
  over_lines :
      (k : ℕ)
      → m ≡ n + suc k
      → contains_char b')' first ≡ false
      → ArrayBody (first ++ b' ' ∷ []) rest k r
      → InArray n first rest m r

pub ArrayBody-lt :
    (body : Text) (rest : List Text) (k : ℕ) (r : Text) → ArrayBody body rest k r → k < length rest
ArrayBody-lt body [] k r h = absurd h
ArrayBody-lt body (line ∷ rest) zero r h = omega arith
ArrayBody-lt body (line ∷ rest) (suc k) r h =
    ground (arith, ArrayBody-lt (grown body line) rest k r h.1)

-- The errors of the loop over the lines, with the text so far.
abbrev LoopError : ℕ → Text → ℕ → List Text → Error → Type 0
LoopError n body extra rest (unterminated_array key m) = m ≡ n
LoopError n body extra rest (unterminated_quote m r) =
    (k : ℕ) × (m ≡ n + (extra + suc k)) × ArrayBody body rest k r
LoopError n body extra rest _ = ⊥

LoopError-cons :
    (n extra : ℕ) (body g line : Text) (rest : List Text)
    → contains_char b')' line ≡ false
    → grown body line ≡ g
    → (e : Error) → LoopError n g (extra + 1) rest e
    → LoopError n body extra (line ∷ rest) e
LoopError-cons n extra body g line rest f eq (unterminated_array key m) h = h
LoopError-cons n extra body g line rest f eq (unterminated_quote m r) (k, e, h) =
    (suc k, omega arith, (f, rw eq h))
LoopError-cons n extra body g line rest f eq _ h = absurd h

close_array-Fails :
    (P : Error → Type 0) (body : Text) (line extra : ℕ)
    → P (unterminated_quote line body)
    → Fails P (close_array body line extra)
unfolding tokenize_array_body
close_array-Fails P body line extra p =
    Fails-bind P (array_elements body line body) (λ es. (es, extra))
      (local (array_elements body line body) (array_elements-Unclosed body line body))
  where
    local : (r : Result Error (List Text)) → Unclosed body line r → Fails P r
    local (ok es) u = tt
    local (err e) u = rw u p

array_lines-Fails :
    (n : ℕ) (key body : Text) (extra : ℕ) (rest : List Text)
    → Fails (LoopError n body extra rest) (array_lines key n body extra rest)
unfolding array_lines
array_lines-Fails n key body extra [] = refl
array_lines-Fails n key body extra (line ∷ rest) = elim (Option-cases (split_once b')' line)) [
  | inl e ↦
      rw (e, Fails)
        (go (is_blank_or_comment (trim_start line)) refl (split_once-none_inv b')' line e)
          (array_lines-Fails n key body (extra + 1) rest)
          (array_lines-Fails n key (body ++ (line ++ b' ' ∷ [])) (extra + 1) rest))
  | inr ((l, after), e) ↦
      let s = rw e at (split_once-Splits b')' line) in
      rw (e, Fails)
        (close_array-Fails (LoopError n body extra (line ∷ rest)) (body ++ l) (n + (extra + 1))
          (extra + 1) (0, refl, (l, after, s.0, s.1, refl)))
]
  where
    go :
        (b : Bool)
        → is_blank_or_comment (trim_start line) ≡ b
        → contains_char b')' line ≡ false
        → Fails (LoopError n body (extra + 1) rest) (array_lines key n body (extra + 1) rest)
        → Fails
            (LoopError n (body ++ (line ++ b' ' ∷ [])) (extra + 1) rest)
            (array_lines key n (body ++ (line ++ b' ' ∷ [])) (extra + 1) rest)
        → Fails (LoopError n body extra (line ∷ rest)) (
            if b
            then array_lines key n body (extra + 1) rest
            else array_lines key n (body ++ (line ++ b' ' ∷ [])) (extra + 1) rest)
    go true e f skipped more =
        Fails-map _ (LoopError-cons n extra body body line rest f (rw e refl)) skipped
    go false e f skipped more =
        Fails-map _
          (LoopError-cons n extra body (body ++ (line ++ b' ' ∷ [])) line rest f (rw e refl)) more

-- The errors of an array that opens in line `n` before `first`.
abbrev pub ArrayError : ℕ → Text → List Text → Error → Type 0
ArrayError n first rest (unterminated_array key m) = m ≡ n
ArrayError n first rest (unterminated_quote m r) = InArray n first rest m r
ArrayError n first rest _ = ⊥

loop-ArrayError :
    (n : ℕ) (first : Text) (rest : List Text)
    → contains_char b')' first ≡ false
    → (e : Error) → LoopError n (first ++ b' ' ∷ []) 0 rest e
    → ArrayError n first rest e
loop-ArrayError n first rest f (unterminated_array key m) h = h
loop-ArrayError n first rest f (unterminated_quote m r) (k, e, h) = over_lines k (omega arith) f h
loop-ArrayError n first rest f _ h = absurd h

pub parse_array-Fails :
    (n : ℕ) (key first : Text) (rest : List Text)
    → Fails (ArrayError n first rest) (parse_array key n first rest)
unfolding parse_array
parse_array-Fails n key first rest = elim (Option-cases (split_once b')' first)) [
  | inl e ↦
      rw (e, Fails)
        (Fails-map _ (loop-ArrayError n first rest (split_once-none_inv b')' first e))
          (array_lines-Fails n key (first ++ b' ' ∷ []) 0 rest))
  | inr ((l, after), e) ↦
      let s = rw e at (split_once-Splits b')' first) in
      rw (e, Fails) (close_array-Fails (ArrayError n first rest) l n 0 (on_line after refl s.0 s.1))
]
