-- ===== src/Etcd/Keys/Block.antt =====
-- The lines around the list of keys, as `find_aesgcm_keys_block` meets them.
use hummingbird_k8s.Base.{
  ℕ, suc, ◌+◌, leb, ◌==◌, Bool, true, false, not, ◌&&◌, ◌||◌, List, [], ◌∷◌, ◌++◌, ◌≡◌, refl, ap,
  ◌∙◌, arith, Option, none, some, if◌then◌else◌, length, All, ==_iff,
}
use hummingbird_k8s.Text.{Text}
use hummingbird_k8s.Etcd.Keys.{
  indent_of, is_blank, is_aesgcm, is_keys, is_entry, position, next_index, find_keys_line, Scan,
  push, scan,
}

-- What each of the three loops passes over.
unfoldable pub skips_keys : ℕ → Text → Bool
skips_keys aes_indent l = is_blank l || (not (leb (indent_of l) aes_indent) && not (is_keys l))

unfoldable pub skips_entry : ℕ → Text → Bool
skips_entry keys_indent l = is_blank l || (not (leb (indent_of l) keys_indent) && not (is_entry l))

-- What they stop at.
unfoldable pub hits_keys : ℕ → Text → Bool
hits_keys aes_indent l = not (is_blank l) && (not (leb (indent_of l) aes_indent) && is_keys l)

unfoldable pub hits_entry : ℕ → Text → Bool
hits_entry keys_indent l = not (is_blank l) && (not (leb (indent_of l) keys_indent) && is_entry l)

-- The first line that a loop stops at.
pub record FirstHit (skips hits : Text → Bool) (ls : List Text) (i : ℕ) : Type 0 where
  pub before : List Text
  pub line : Text
  pub later : List Text
  pub splits : ls ≡ before ++ line ∷ later
  pub index : i ≡ length before
  pub skipped : All (λ l. skips l ≡ true) before
  pub hit : hits line ≡ true

at_head :
    (skips hits : Text → Bool) (l : Text) (ls : List Text)
    → hits l ≡ true
    → FirstHit skips hits (l ∷ ls) 0
at_head skips hits l ls h = record {
  before = [];
  line = l;
  later = ls;
  splits = refl;
  index = refl;
  skipped = tt;
  hit = h;
}

behind :
    (skips hits : Text → Bool) (l : Text) (ls : List Text) (i : ℕ)
    → skips l ≡ true
    → FirstHit skips hits ls i
    → FirstHit skips hits (l ∷ ls) (suc i)
behind skips hits l ls i h f = record {
  before = l ∷ f.before;
  line = f.line;
  later = f.later;
  splits = ap (◌∷◌ l) f.splits;
  index = ap suc f.index;
  skipped = (h, f.skipped);
  hit = f.hit;
}

-- An index found is that of the first hit.
abbrev pub IsFirst : (Text → Bool) → (Text → Bool) → List Text → Option ℕ → Type 0
IsFirst skips hits ls none = Unit
IsFirst skips hits ls (some i) = FirstHit skips hits ls i

next-IsFirst :
    (skips hits : Text → Bool) (l : Text) (ls : List Text) (o : Option ℕ)
    → skips l ≡ true
    → IsFirst skips hits ls o
    → IsFirst skips hits (l ∷ ls) (next_index o)
next-IsFirst skips hits l ls none h f = tt
next-IsFirst skips hits l ls (some i) h f = behind skips hits l ls i h f

unfoldable pub not_aesgcm : Text → Bool
not_aesgcm l = not (is_aesgcm l)

pub position-IsFirst : (ls : List Text) → IsFirst not_aesgcm is_aesgcm ls (position is_aesgcm ls)
unfolding position not_aesgcm
position-IsFirst [] = tt
position-IsFirst (l ∷ ls) = go (is_aesgcm l) refl (position is_aesgcm ls) (position-IsFirst ls)
  where
    go :
        (b : Bool)
        → is_aesgcm l ≡ b
        → (o : Option ℕ) → IsFirst not_aesgcm is_aesgcm ls o
        → IsFirst not_aesgcm is_aesgcm (l ∷ ls) (if b then some 0 else next_index o)
    go true e o f = at_head _ _ l ls e
    go false e o f = next-IsFirst not_aesgcm is_aesgcm l ls o (ground arith) f

pub find_keys_line-IsFirst :
    (aes : ℕ) (ls : List Text) → IsFirst (skips_keys aes) (hits_keys aes) ls (find_keys_line aes ls)
unfolding find_keys_line
find_keys_line-IsFirst aes [] = tt
find_keys_line-IsFirst aes (l ∷ ls) =
    go (is_blank l) (leb (indent_of l) aes) (is_keys l) refl refl refl (find_keys_line aes ls)
      (find_keys_line-IsFirst aes ls)
  where
    go :
        (b c d : Bool)
        → is_blank l ≡ b
        → leb (indent_of l) aes ≡ c
        → is_keys l ≡ d
        → (o : Option ℕ) → IsFirst (skips_keys aes) (hits_keys aes) ls o
        → IsFirst
            (skips_keys aes)
            (hits_keys aes)
            (l ∷ ls)
            (if b then next_index o else if c then none else if d then some 0 else next_index o)
    go true c d e f g o r =
        next-IsFirst (skips_keys aes) (hits_keys aes) l ls o (unfold skips_keys in rw e refl) r
    go false true d e f g o r = tt
    go false false true e f g o r = at_head _ _ l ls (unfold hits_keys in rw (e, f, g) refl)
    go false false false e f g o r =
        next-IsFirst (skips_keys aes) (hits_keys aes) l ls o
          (unfold skips_keys in rw (e, f, g) refl) r

-- The scan of a list of keys that has an entry.
pub record FirstEntry (k i : ℕ) (ls : List Text) (s : Scan) (j : ℕ) : Type 0 where
  pub before : List Text
  pub line : Text
  pub later : List Text
  pub splits : ls ≡ before ++ line ∷ later
  pub skipped : All (λ l. skips_entry k l ≡ true) before
  pub hit : hits_entry k line ≡ true
  pub column : j ≡ indent_of line
  pub scanned :
      s ≡ push (length before + i) (scan k (suc (length before + i)) (some (indent_of line)) later)

abbrev pub HasFirst : ℕ → ℕ → List Text → Scan → Option ℕ → Type 0
HasFirst k i ls s none = Unit
HasFirst k i ls s (some j) = FirstEntry k i ls s j

behind_entry :
    (k i : ℕ) (l : Text) (ls : List Text) (s : Scan) (o : Option ℕ)
    → skips_entry k l ≡ true
    → HasFirst k (suc i) ls s o
    → HasFirst k i (l ∷ ls) s o
behind_entry k i l ls s none h f = tt
behind_entry k i l ls s (some j) h f = record {
  before = l ∷ f.before;
  line = f.line;
  later = f.later;
  splits = ap (◌∷◌ l) f.splits;
  skipped = (h, f.skipped);
  hit = f.hit;
  column = f.column;
  scanned =
      f.scanned
      ∙ ap (λ n. push n (scan k (suc n) (some (indent_of f.line)) f.later))
          (suc_right (length f.before) i);
}
  where
    suc_right : (m n : ℕ) → m + suc n ≡ suc m + n
    suc_right m n = omega arith

pub scan_keeps_indent : (k i e : ℕ) (ls : List Text) → (scan k i (some e) ls).entry_indent ≡ some e
unfolding scan push
scan_keeps_indent k i e [] = refl
scan_keeps_indent k i e (l ∷ ls) =
    go (is_blank l) (leb (indent_of l) k) (is_entry l) (indent_of l == e) (indent_of l)
      (scan_keeps_indent k (suc i) e ls)
      (λ same.
        scan_keeps_indent k (suc i) (indent_of l) ls ∙ ap some ((==_iff (indent_of l) e).0 same))
  where
    go :
        (b c d f : Bool)
        → (ind : ℕ) → (scan k (suc i) (some e) ls).entry_indent ≡ some e
        → (f ≡ true → (scan k (suc i) (some ind) ls).entry_indent ≡ some e)
        → (if b
            then scan k (suc i) (some e) ls
            else if◌then◌else◌ {A = Scan} c
                (record { entries = []; entry_indent = some e; end = i })
                (if d
                  then (if f
                      then push i (scan k (suc i) (some ind) ls)
                      else scan k (suc i) (some e) ls)
                  else scan k (suc i) (some e) ls)).entry_indent
          ≡ some e
    go true c d f ind h g = h
    go false true d f ind h g = refl
    go false false true true ind h g = g refl
    go false false true false ind h g = h
    go false false false f ind h g = h

at_entry :
    (k i : ℕ) (l : Text) (ls : List Text) (o : Option ℕ)
    → hits_entry k l ≡ true
    → o ≡ some (indent_of l)
    → HasFirst k i (l ∷ ls) (push i (scan k (suc i) (some (indent_of l)) ls)) o
at_entry k i l ls none h e = absurd cc
at_entry k i l ls (some j) h e = record {
  before = [];
  line = l;
  later = ls;
  splits = refl;
  skipped = tt;
  hit = h;
  column = cc;
  scanned = ap (λ n. push n (scan k (suc n) (some (indent_of l)) ls)) from_zero;
}
  where
    from_zero : i ≡ 0 + i
    from_zero = omega arith

pub scan-HasFirst :
    (k i : ℕ) (ls : List Text) → HasFirst k i ls (scan k i none ls) (scan k i none ls).entry_indent
unfolding scan
scan-HasFirst k i [] = tt
scan-HasFirst k i (l ∷ ls) =
    go (is_blank l) (leb (indent_of l) k) (is_entry l) refl refl refl (scan-HasFirst k (suc i) ls)
  where
    pushed : Scan
    pushed = push i (scan k (suc i) (some (indent_of l)) ls)

    over : Bool → Bool → Bool → Scan
    over b c d =
        if b
        then scan k (suc i) none ls
        else if◌then◌else◌ {A = Scan} c (record { entries = []; entry_indent = none; end = i })
            (if d then pushed else scan k (suc i) none ls)

    go :
        (b c d : Bool)
        → is_blank l ≡ b
        → leb (indent_of l) k ≡ c
        → is_entry l ≡ d
        → HasFirst k (suc i) ls (scan k (suc i) none ls) (scan k (suc i) none ls).entry_indent
        → HasFirst k i (l ∷ ls) (over b c d) (over b c d).entry_indent
    go true c d e f g r = behind_entry k i l ls _ _ (unfold skips_entry in rw e refl) r
    go false true d e f g r = tt
    go false false false e f g r =
        behind_entry k i l ls _ _ (unfold skips_entry in rw (e, f, g) refl) r
    go false false true e f g r =
        at_entry k i l ls _ (unfold hits_entry in rw (e, f, g) refl)
          (unfold push in scan_keeps_indent k (suc i) (indent_of l) ls)
