-- ===== src/Etcd/Keys/Fresh.antt =====
-- The two lines of a new key, and what they move.
use hummingbird_k8s.Base.{
  ℕ, zero, suc, ◌+◌, ◌-◌, leb, true, false, List, [], ◌∷◌, ◌++◌, ◌≡◌, refl, ap, ◌∙◌, arith, Option,
  none, some, is_empty,
}
use hummingbird_k8s.Text.{
  Text, text, len, trim, trim_start, trim_end, trim_end_by, trim_cons, is_whitespace, starts_with,
}
use hummingbird_k8s.Etcd.Keys.{
  indent_of, is_blank, is_entry, Scan, push, scan, spaces, name_line, secret_line,
}

-- Two lines more in front.
abbrev pub shift_all : List ℕ → List ℕ
shift_all [] = []
shift_all (i ∷ is) = suc (suc i) ∷ shift_all is

unfoldable pub shift : Scan → Scan
shift s = record {
  entries = shift_all s.entries;
  entry_indent = s.entry_indent;
  end = suc (suc s.end);
}

pub scan-shift :
    (k i : ℕ) (o : Option ℕ) (ls : List Text) → scan k (suc (suc i)) o ls ≡ shift (scan k i o ls)
unfolding scan shift push
scan-shift k i o [] = refl
scan-shift k i o (l ∷ ls) =
    ground (arith, scan-shift k (suc i) o ls, scan-shift k (suc i) (some (indent_of l)) ls)

len-spaces : (n : ℕ) (s : Text) → len (spaces n ++ s) ≡ n + len s
unfolding len spaces
len-spaces zero s = omega arith
len-spaces (suc n) s = omega (arith, len-spaces n s)

trim_start-spaces : (n : ℕ) (s : Text) → trim_start (spaces n ++ s) ≡ trim_start s
unfolding spaces trim_start is_whitespace
trim_start-spaces zero s = refl
trim_start-spaces (suc n) s = trim_start-spaces n s

-- A line whose text begins after some spaces.
trim_end-filled : (c : ℕ) (s : Text) → is_whitespace c ≡ false → is_empty (trim_end (c ∷ s)) ≡ false
unfolding trim_end trim_end_by
trim_end-filled c s h = go (trim_end_by is_whitespace s)
  where
    go : (t : Text) → is_empty (trim_cons is_whitespace c t) ≡ false
    go [] = rw h refl
    go (d ∷ t) = refl

-- A line of spaces and a text that begins with another character.
record Indented (n c : ℕ) (s : Text) : Type 0 where
  filled : is_blank (spaces n ++ c ∷ s) ≡ false
  column : indent_of (spaces n ++ c ∷ s) ≡ n
  entry : is_entry (spaces n ++ c ∷ s) ≡ starts_with (text "- ") (c ∷ s)

spaces-Indented : (n c : ℕ) (s : Text) → is_whitespace c ≡ false → Indented n c s
spaces-Indented n c s h = record {
  filled = unfold is_blank trim in ap (λ t. is_empty (trim_end t)) trimmed ∙ trim_end-filled c s h;
  column =
      unfold indent_of in
      ap (λ t. len (spaces n ++ c ∷ s) - len t) trimmed
      ∙ (ap (λ m. m - len (c ∷ s)) (len-spaces n (c ∷ s)) ∙ add_sub n (len (c ∷ s)));
  entry = unfold is_entry in ap (starts_with (text "- ")) trimmed;
}
  where
    trimmed : trim_start (spaces n ++ c ∷ s) ≡ c ∷ s
    trimmed = trim_start-spaces n (c ∷ s) ∙ unfold trim_start in rw h refl

    add_sub : (m l : ℕ) → m + l - l ≡ m
    add_sub m l = omega arith

spaces-two : (n : ℕ) (s : Text) → spaces n ++ b' ' ∷ b' ' ∷ s ≡ spaces (suc (suc n)) ++ s
unfolding spaces
spaces-two zero s = refl
spaces-two (suc n) s = ap (◌∷◌ b' ') (spaces-two n s)

name_facts :
    (j : ℕ) (name : Text)
    → (is_blank (name_line j name) ≡ false)
      × (indent_of (name_line j name) ≡ j)
      × (is_entry (name_line j name) ≡ true)
unfolding name_line text
name_facts j name =
    let i = spaces-Indented j b'-' (b' ' ∷ text "name: " ++ name) (unfold is_whitespace in refl) in
    (i.filled, i.column, i.entry ∙ unfold starts_with in refl)

secret_facts :
    (j : ℕ) (secret : Text)
    → (is_blank (secret_line j secret) ≡ false)
      × (indent_of (secret_line j secret) ≡ suc (suc j))
      × (is_entry (secret_line j secret) ≡ false)
unfolding secret_line text
secret_facts j secret = rw (spaces-two j (text "secret: " ++ secret)) (
    let i =
      spaces-Indented (suc (suc j)) b's' (text "ecret: " ++ secret)
        (unfold is_whitespace in refl) in
    (i.filled, i.column, i.entry ∙ unfold starts_with in refl))

-- The scan that meets a new key's lines where its first entry was.
pub scan-new_key :
    (k at j : ℕ) (name secret : Text) (rest : List Text)
    → leb j k ≡ false
    → scan k at none (name_line j name ∷ secret_line j secret ∷ rest)
      ≡ push at (scan k (suc (suc at)) (some j) rest)
unfolding scan
scan-new_key k at j name secret rest h =
    let n = name_facts j name in
    let m = secret_facts j secret in rw (n.0, n.1, n.2, m.0, m.1, m.2, h, deeper) refl
  where
    deeper : leb (suc (suc j)) k ≡ false
    deeper = ground arith
