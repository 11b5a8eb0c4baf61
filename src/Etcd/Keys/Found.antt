-- ===== src/Etcd/Keys/Found.antt =====
-- What `find_aesgcm_keys_block` finds below given lines.
use hummingbird_k8s.Base.{
  ℕ, suc, ◌+◌, true, List, [], ◌∷◌, ◌++◌, ◌≡◌, refl, ap, ◌∙◌, arith, none, some, length, drop, All,
  append_assoc, length-append,
}
use hummingbird_k8s.Text.{Text}
use hummingbird_k8s.Etcd.Keys.{
  indent_of, is_aesgcm, position, find_keys_line, scan, to_block, line_at, block_at,
  find_aesgcm_keys_block,
}
use hummingbird_k8s.Etcd.Keys.Block.{not_aesgcm, skips_keys, hits_keys, skips_entry}

zero_left : (n : ℕ) → 0 + n ≡ n
zero_left n = omega arith

suc_left : (m n : ℕ) → suc m + n ≡ suc (m + n)
suc_left m n = omega arith

pub drop-length :
    (A : List Text) (x : Text) (R : List Text) → drop (suc (length A)) (A ++ x ∷ R) ≡ R
drop-length [] x R = refl
drop-length (a ∷ A) x R = drop-length A x R

pub line_at-length :
    (A : List Text) (x : Text) (R : List Text) → line_at (length A) (A ++ x ∷ R) ≡ x
line_at-length [] x R = refl
line_at-length (a ∷ A) x R = line_at-length A x R

position-found :
    (A : List Text) (x : Text) (R : List Text)
    → All (λ l. not_aesgcm l ≡ true) A
    → is_aesgcm x ≡ true
    → position is_aesgcm (A ++ x ∷ R) ≡ some (length A)
unfolding position not_aesgcm
position-found [] x R h k = ground arith
position-found (a ∷ A) x R h k = ground (arith, position-found A x R h.1 k)

find_keys_line-found :
    (aes : ℕ) (B : List Text) (y : Text) (R : List Text)
    → All (λ l. skips_keys aes l ≡ true) B
    → hits_keys aes y ≡ true
    → find_keys_line aes (B ++ y ∷ R) ≡ some (length B)
unfolding find_keys_line skips_keys hits_keys
find_keys_line-found aes [] y R h k = ground arith
find_keys_line-found aes (b ∷ B) y R h k = ground (arith, find_keys_line-found aes B y R h.1 k)

pub scan-skipped :
    (k i : ℕ) (P T : List Text)
    → All (λ l. skips_entry k l ≡ true) P
    → scan k i none (P ++ T) ≡ scan k (length P + i) none T
unfolding scan skips_entry
scan-skipped k i [] T h = ap (λ n. scan k n none T) (omega arith)
scan-skipped k i (p ∷ P) T h = ground (arith, scan-skipped k (suc i) P T h.1)

-- The lines up to the list of keys, and those of the list before its first entry.
pub record Head : Type 0 where
  pub top : List Text
  pub provider : Text
  pub middle : List Text
  pub keys : Text
  pub free : All (λ l. not_aesgcm l ≡ true) top
  pub is_provider : is_aesgcm provider ≡ true
  pub middle_skipped : All (λ l. skips_keys (indent_of provider) l ≡ true) middle
  pub is_list : hits_keys (indent_of provider) keys ≡ true

unfoldable pub head_lines : Head → List Text → List Text
head_lines h rest = h.top ++ h.provider ∷ (h.middle ++ h.keys ∷ rest)

unfoldable pub keys_index : Head → ℕ
keys_index h = suc (length h.top + length h.middle)

-- Below such a head, the block is what the scan of the lines behind it says.
pub find-head :
    (h : Head) (rest : List Text)
    → find_aesgcm_keys_block (head_lines h rest)
      ≡ to_block (keys_index h) (scan (indent_of h.keys) (suc (keys_index h)) none rest)
unfolding find_aesgcm_keys_block head_lines keys_index block_at
find-head h rest =
    rw
      (
        position-found h.top h.provider (h.middle ++ h.keys ∷ rest) h.free h.is_provider,
        line_at-length h.top h.provider (h.middle ++ h.keys ∷ rest),
        drop-length h.top h.provider (h.middle ++ h.keys ∷ rest),
        find_keys_line-found (indent_of h.provider) h.middle h.keys rest h.middle_skipped h.is_list,
        line_at-keys h.top h.middle,
        drop-keys h.top h.middle,
      )
      refl
  where
    line_at-keys :
        (A B : List Text)
        → line_at (suc (length A + length B)) (A ++ h.provider ∷ (B ++ h.keys ∷ rest)) ≡ h.keys
    line_at-keys [] B =
        ap (λ n. line_at n (B ++ h.keys ∷ rest)) (zero_left (length B))
        ∙ line_at-length B h.keys rest
    line_at-keys (a ∷ A) B =
        ap (λ n. line_at n (A ++ h.provider ∷ (B ++ h.keys ∷ rest)))
          (suc_left (length A) (length B))
        ∙ line_at-keys A B

    drop-keys :
        (A B : List Text)
        → drop (suc (suc (length A + length B))) (A ++ h.provider ∷ (B ++ h.keys ∷ rest)) ≡ rest
    drop-keys [] B =
        ap (λ n. drop (suc n) (B ++ h.keys ∷ rest)) (zero_left (length B))
        ∙ drop-length B h.keys rest
    drop-keys (a ∷ A) B =
        ap (λ n. drop (suc n) (A ++ h.provider ∷ (B ++ h.keys ∷ rest)))
          (suc_left (length A) (length B))
        ∙ drop-keys A B

pub head_lines-append : (h : Head) (P R : List Text) → head_lines h (P ++ R) ≡ head_lines h P ++ R
unfolding head_lines
head_lines-append h P R =
    rw
      (
        append_assoc h.top (h.provider ∷ (h.middle ++ h.keys ∷ P)) R,
        append_assoc h.middle (h.keys ∷ P) R,
      )
      refl

pub length-head_lines :
    (h : Head) (P : List Text) → length (head_lines h P) ≡ length P + suc (keys_index h)
unfolding head_lines keys_index
length-head_lines h P = omega (
  arith,
  length-append h.top (h.provider ∷ (h.middle ++ h.keys ∷ P)),
  length-append h.middle (h.keys ∷ P),
)
