-- ===== src/Etcd/Keys/Dual.antt =====
-- The scan and the lines of a configuration with the new key in front.
use hummingbird_k8s.Base.{
  ℕ, suc, ◌+◌, ◌-◌, ◌≤◌, ==-refl, true, List, [], ◌∷◌, ◌++◌, ◌≡◌, refl, ap, ◌∙◌, arith, Option,
  none, some, ok, length, take, drop, append_assoc,
}
use hummingbird_k8s.Text.{Text}
use hummingbird_k8s.Etcd.Keys.{
  KeysBlock, indent_of, Scan, push, scan, to_block, name_line, secret_line,
}
use hummingbird_k8s.Etcd.Keys.Block.{hits_entry, scan_keeps_indent}
use hummingbird_k8s.Etcd.Keys.Fresh.{shift_all, shift, scan-shift, scan-new_key}

take-append : (Q R : List Text) → take (length Q) (Q ++ R) ≡ Q
take-append [] R = refl
take-append (q ∷ Q) R = ap (◌∷◌ q) (take-append Q R)

drop-append : (Q R : List Text) (n : ℕ) → drop (length Q + n) (Q ++ R) ≡ drop n R
drop-append [] R n = ap (λ m. drop m R) (omega arith)
drop-append (q ∷ Q) R n =
    ap (λ m. drop m (q ∷ (Q ++ R))) (suc_left (length Q) n) ∙ drop-append Q R n
  where
    suc_left : (m n : ℕ) → suc m + n ≡ suc (m + n)
    suc_left m n = omega arith

pub scan-end_le : (k i : ℕ) (o : Option ℕ) (ls : List Text) → i ≤ (scan k i o ls).end
unfolding scan push
scan-end_le k i o [] = ground arith
scan-end_le k i o (l ∷ ls) =
    ground (arith, scan-end_le k (suc i) o ls, scan-end_le k (suc i) (some (indent_of l)) ls)

scan-first :
    (k i : ℕ) (first : Text) (later : List Text)
    → hits_entry k first ≡ true
    → scan k i (some (indent_of first)) (first ∷ later)
      ≡ push i (scan k (suc i) (some (indent_of first)) later)
unfolding scan hits_entry
scan-first k i first later h = ground (arith, ==-refl (indent_of first))

-- The scan from the first entry on, with the new key's lines before it.
pub scan-dual :
    (k at : ℕ) (name secret first : Text) (later : List Text)
    → hits_entry k first ≡ true
    → scan k at none
        (name_line (indent_of first) name ∷ secret_line (indent_of first) secret ∷ first ∷ later)
      ≡ push at (push (suc (suc at)) (shift (scan k (suc at) (some (indent_of first)) later)))
scan-dual k at name secret first later h =
    scan-new_key k at (indent_of first) name secret (first ∷ later)
      (unfold hits_entry in ground arith)
    ∙ (ap (push at) (scan-first k (suc (suc at)) first later h)
        ∙ ap (λ s. push at (push (suc (suc at)) s))
            (scan-shift k (suc at) (some (indent_of first)) later))

-- The block that a scan from the first entry on gives.
abbrev pub block_from : ℕ → ℕ → ℕ → Scan → KeysBlock
block_from keys_line j at s = record {
  keys_line = keys_line;
  entry_indent = j;
  entries = at ∷ s.entries;
  end = s.end;
}

pub to_block-scan :
    (n k at j : ℕ) (later : List Text)
    → to_block n (push at (scan k (suc at) (some j) later))
      ≡ ok (block_from n j at (scan k (suc at) (some j) later))
unfolding to_block push
to_block-scan n k at j later = rw (scan_keeps_indent k (suc at) j later) refl

pub to_block-dual :
    (n k at j : ℕ) (later : List Text)
    → to_block n (push at (push (suc (suc at)) (shift (scan k (suc at) (some j) later))))
      ≡ ok (record {
        keys_line = n;
        entry_indent = j;
        entries = at ∷ suc (suc at) ∷ shift_all (scan k (suc at) (some j) later).entries;
        end = suc (suc (scan k (suc at) (some j) later).end);
      })
unfolding to_block push shift
to_block-dual n k at j later = rw (scan_keeps_indent k (suc at) j later) refl

-- The rewritings on a prefix of lines and the rest from the first entry on.
module _ (Q R : List Text) (a b : Text) where
  take_prefix : take (length Q) (Q ++ R) ≡ Q
  take_prefix = take-append Q R

  pub inserted_lines : take (length Q) (Q ++ R) ++ a ∷ b ∷ drop (length Q) (Q ++ R) ≡ Q ++ a ∷ b ∷ R
  inserted_lines = rw (take-append Q R, drop_prefix) refl
    where
      drop_prefix : drop (length Q) (Q ++ R) ≡ R
      drop_prefix = ap (λ n. drop n (Q ++ R)) (omega arith) ∙ drop-append Q R 0

  pub dropped_lines :
      (end : ℕ)
      → length Q ≤ end
      → take (suc (suc (length Q))) (Q ++ a ∷ b ∷ R) ++ drop (suc (suc end)) (Q ++ a ∷ b ∷ R)
        ≡ take (length Q) (Q ++ R) ++ a ∷ b ∷ drop end (Q ++ R)
  dropped_lines end h =
      rw (take_two Q, take-append Q R, later_dual, later) (append_assoc Q (a ∷ b ∷ []) _)
    where
      m : ℕ
      m = end - length Q

      take_two : (P : List Text) → take (suc (suc (length P))) (P ++ a ∷ b ∷ R) ≡ P ++ a ∷ b ∷ []
      take_two [] = refl
      take_two (p ∷ P) = ap (◌∷◌ p) (take_two P)

      later : drop end (Q ++ R) ≡ drop m R
      later = ap (λ n. drop n (Q ++ R)) (omega (arith, h)) ∙ drop-append Q R m

      split_end : suc (suc end) ≡ length Q + suc (suc m)
      split_end = omega (arith, h)

      later_dual : drop (suc (suc end)) (Q ++ a ∷ b ∷ R) ≡ drop m R
      later_dual =
          ap (λ n. drop n (Q ++ a ∷ b ∷ R)) split_end ∙ drop-append Q (a ∷ b ∷ R) (suc (suc m))
