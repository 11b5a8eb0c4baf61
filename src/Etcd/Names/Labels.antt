-- ===== src/Etcd/Names/Labels.antt =====
-- Laws of `sanitize_label`.
use mathlib.Core.Path.{subst}
use hummingbird_k8s.Base.{
  ℕ, Bool, true, false, not, [], ◌∷◌, ◌≡◌, refl, ap, arith, ◌==◌, none, some, if◌then◌else◌,
  is_empty, all,
}
use hummingbird_k8s.Text.{Text, trim_end_by, trim_end_matches, trim_cons, is_ascii_alphanumeric}
use hummingbird_k8s.Etcd.Names.{
  is_label_char, map_label, trim_start_dashes, trim_dashes, sanitize_label,
}

-- What the sanitized label may be: characters of the set only, and no dash at either end.
unfoldable pub starts_clean : Text → Bool
starts_clean [] = true
starts_clean (c ∷ s) = not (c == b'-')

unfoldable pub ends_clean : Text → Bool
ends_clean [] = true
ends_clean (c ∷ []) = not (c == b'-')
ends_clean (c ∷ d ∷ s) = ends_clean (d ∷ s)

pub record IsLabel (l : Text) : Type 0 where
  pub filled : is_empty l ≡ false
  pub characters : all is_label_char l ≡ true
  pub head : starts_clean l ≡ true
  pub last : ends_clean l ≡ true

abbrev is_dash : ℕ → Bool
is_dash d = d == b'-'

map_label-all : (s : Text) → all is_label_char (map_label s) ≡ true
unfolding map_label is_label_char is_ascii_alphanumeric
map_label-all [] = refl
map_label-all (c ∷ s) = ground (arith, map_label-all s)

trim_start_dashes-all :
    (s : Text) → all is_label_char s ≡ true → all is_label_char (trim_start_dashes s) ≡ true
unfolding trim_start_dashes
trim_start_dashes-all [] h = refl
trim_start_dashes-all (c ∷ s) h = ground (arith, trim_start_dashes-all s)

trim_start_dashes-clean : (s : Text) → starts_clean (trim_start_dashes s) ≡ true
unfolding trim_start_dashes starts_clean
trim_start_dashes-clean [] = refl
trim_start_dashes-clean (c ∷ s) = ground (arith, trim_start_dashes-clean s)

trim_end_by-all :
    (s : Text) → all is_label_char s ≡ true → all is_label_char (trim_end_by is_dash s) ≡ true
unfolding trim_end_by
trim_end_by-all [] h = refl
trim_end_by-all (c ∷ s) h = ground (arith, trim_end_by-all s)

trim_end_by-starts_clean :
    (s : Text) → starts_clean s ≡ true → starts_clean (trim_end_by is_dash s) ≡ true
unfolding trim_end_by starts_clean
trim_end_by-starts_clean [] h = refl
trim_end_by-starts_clean (c ∷ s) h = go (trim_end_by is_dash s)
  where
    go : (t : Text) → starts_clean (trim_cons is_dash c t) ≡ true
    go [] = ground arith
    go (d ∷ t) = h

trim_end_by-ends_clean : (s : Text) → ends_clean (trim_end_by is_dash s) ≡ true
unfolding trim_end_by ends_clean
trim_end_by-ends_clean [] = refl
trim_end_by-ends_clean (c ∷ s) = go (trim_end_by is_dash s) (trim_end_by-ends_clean s)
  where
    go : (t : Text) → ends_clean t ≡ true → ends_clean (trim_cons is_dash c t) ≡ true
    go [] e = ground arith
    go (d ∷ t) e = e

map_label-same : (l : Text) → all is_label_char l ≡ true → map_label l ≡ l
unfolding map_label
map_label-same [] h = refl
map_label-same (c ∷ l) h = ground (arith, map_label-same l)

trim_start_dashes-same : (l : Text) → starts_clean l ≡ true → trim_start_dashes l ≡ l
unfolding trim_start_dashes starts_clean
trim_start_dashes-same [] h = refl
trim_start_dashes-same (c ∷ l) h = ground arith

trim_end_by-same : (l : Text) → ends_clean l ≡ true → trim_end_by is_dash l ≡ l
unfolding trim_end_by ends_clean
trim_end_by-same [] h = refl
trim_end_by-same (c ∷ []) h = ground arith
trim_end_by-same (c ∷ d ∷ l) h = ap (trim_cons is_dash c) (trim_end_by-same (d ∷ l) h)

sanitized-IsLabel :
    (t : Text) {l : Text}
    → all is_label_char t ≡ true
    → starts_clean t ≡ true
    → ends_clean t ≡ true
    → (if is_empty t then none else some t) ≡ some l
    → IsLabel l
sanitized-IsLabel [] a h e s = absurd cc
sanitized-IsLabel (c ∷ t) {l} a h e s =
    let same : (c ∷ t) ≡ l = cc in
    subst IsLabel same (record { filled = refl; characters = a; head = h; last = e })

same_label : (t : Text) → IsLabel t → sanitize_label t ≡ some t
unfolding sanitize_label trim_dashes trim_end_matches
same_label t i =
    rw
      (
        map_label-same t i.characters,
        trim_start_dashes-same t i.head,
        trim_end_by-same t i.last,
        i.filled,
      )
      refl

-- A label that is accepted is not empty, holds letters, digits, dots, underscores and dashes only,
-- has no dash at either end, and is left as it is when it is sanitized again.
pub sanitize_label-IsLabel :
    (raw l : Text) → sanitize_label raw ≡ some l → IsLabel l × (sanitize_label l ≡ some l)
sanitize_label-IsLabel raw l h = (is, same_label l is)
  where
    mapped : Text
    mapped = trim_start_dashes (map_label raw)

    is : IsLabel l
    is =
        unfold sanitize_label trim_dashes trim_end_matches in
        sanitized-IsLabel (trim_end_by is_dash mapped)
          (trim_end_by-all mapped (trim_start_dashes-all (map_label raw) (map_label-all raw)))
          (trim_end_by-starts_clean mapped (trim_start_dashes-clean (map_label raw)))
          (trim_end_by-ends_clean mapped) h
