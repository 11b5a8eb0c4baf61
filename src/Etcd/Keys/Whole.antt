-- ===== src/Etcd/Keys/Whole.antt =====
-- The two rewritings on whole texts.
use hummingbird_k8s.Base.{
  ℕ, zero, suc, true, false, List, [], ◌∷◌, ◌++◌, ◌≡◌, ◌≢◌, refl, ap, ◌∙◌, arith, ok, take, drop,
  All, All-take, All-drop, All-append, append_assoc,
}
use hummingbird_k8s.Text.{Text, text, lines, join, contains_char}
use hummingbird_k8s.Text.Split.{IsLine, lines-free, lines-IsLine, contains_char-append}
use hummingbird_k8s.Etcd.Keys.{
  KeysBlock, find_aesgcm_keys_block, spaces, name_line, secret_line, insert_primary_key,
  drop_non_primary_keys, joined, ends_with_newline,
}
use hummingbird_k8s.Etcd.Keys.Fresh.{shift_all}
use hummingbird_k8s.Etcd.Keys.Rewrite.{Rotates, rotate-Rotates}

-- Each line with a line feed behind it.
unfoldable pub terminated : List Text → Text
terminated [] = []
terminated (l ∷ ls) = l ++ b'\n' ∷ terminated ls

lines-terminated : (ls : List Text) → All IsLine ls → lines (terminated ls) ≡ ls
unfolding terminated
lines-terminated [] h = unfold lines in refl
lines-terminated (l ∷ ls) h =
    lines-free l (terminated ls) h.0.0 h.0.1 ∙ ap (◌∷◌ l) (lines-terminated ls h.1)

join-terminated :
    (l : Text) (ls : List Text) → join (b'\n' ∷ []) (l ∷ ls) ++ b'\n' ∷ [] ≡ terminated (l ∷ ls)
unfolding terminated join
join-terminated l [] = refl
join-terminated l (k ∷ ls) =
    append_assoc l (b'\n' ∷ join (b'\n' ∷ []) (k ∷ ls)) (b'\n' ∷ [])
    ∙ ap (λ s. l ++ b'\n' ∷ s) (join-terminated k ls)

-- Joined lines are read back, if the original ended with a line feed.
lines-joined :
    (ls : List Text) (original : Text)
    → ends_with_newline original ≡ true
    → All IsLine ls
    → ls ≢ []
    → lines (joined ls original) ≡ ls
unfolding joined
lines-joined [] original e h ne = absurd (ne refl)
lines-joined (l ∷ ls) original e h ne =
    rw e (ap lines (join-terminated l ls) ∙ lines-terminated (l ∷ ls) h)

ends_with_newline-append : (s : Text) → ends_with_newline (s ++ b'\n' ∷ []) ≡ true
unfolding ends_with_newline
ends_with_newline-append [] = refl
ends_with_newline-append (c ∷ []) = refl
ends_with_newline-append (c ∷ d ∷ s) = ends_with_newline-append (d ∷ s)

ends_with_newline-joined :
    (ls : List Text) (original : Text)
    → ends_with_newline original ≡ true
    → ends_with_newline (joined ls original) ≡ true
unfolding joined
ends_with_newline-joined ls original e = rw e (ends_with_newline-append (join (b'\n' ∷ []) ls))

IsLine-append : (s t : Text) → IsLine s → IsLine t → IsLine (s ++ t)
IsLine-append s t h k =
    (ground (arith, contains_char-append b'\n' s t), ground (arith, contains_char-append b'\r' s t))

spaces-IsLine : (n : ℕ) → IsLine (spaces n)
unfolding spaces contains_char
spaces-IsLine zero = (refl, refl)
spaces-IsLine (suc n) = spaces-IsLine n

name_line-IsLine : (n : ℕ) (name : Text) → IsLine name → IsLine (name_line n name)
unfolding name_line text
name_line-IsLine n name h =
    IsLine-append (spaces n) _ (spaces-IsLine n)
      (IsLine-append (text "- name: ") name (unfold contains_char in (refl, refl)) h)

secret_line-IsLine : (n : ℕ) (secret : Text) → IsLine secret → IsLine (secret_line n secret)
unfolding secret_line text
secret_line-IsLine n secret h =
    IsLine-append (spaces n) _ (spaces-IsLine n)
      (IsLine-append (text "  secret: ") secret (unfold contains_char in (refl, refl)) h)

append_cons-ne-nil : (xs : List Text) (x : Text) (ys : List Text) → xs ++ x ∷ ys ≢ []
append_cons-ne-nil [] x ys h = cc
append_cons-ne-nil (z ∷ xs) x ys h = cc

-- The rotation of the key in a text.
pub record RotatesText (name secret config : Text) (block : KeysBlock) : Type 0 where
  pub at : ℕ
  pub more : List ℕ
  pub entries : block.entries ≡ at ∷ more
  pub dual : Text
  pub single : Text
  pub inserted : insert_primary_key config name secret ≡ ok dual
  pub dual_block :
      find_aesgcm_keys_block (lines dual)
      ≡ ok (record {
        keys_line = block.keys_line;
        entry_indent = block.entry_indent;
        entries = at ∷ shift_all block.entries;
        end = suc (suc block.end);
      })
  pub dropped : drop_non_primary_keys dual ≡ ok single
  pub single_lines :
      lines single
      ≡ take at (lines config)
        ++ name_line block.entry_indent name
          ∷ secret_line block.entry_indent secret
          ∷ drop block.end (lines config)

-- For a configuration that ends with a line feed, has no carriage returns and in which the aesgcm
-- provider's keys are found, and for a name and a secret of one line each: `insert_primary_key`
-- gives a text in which the new key is found first and every old key behind it, and
-- `drop_non_primary_keys` of that text gives one whose lines are the original's with the whole list
-- of old keys replaced by the new key.
pub rotate-RotatesText :
    (name secret config : Text) (block : KeysBlock)
    → IsLine name
    → IsLine secret
    → ends_with_newline config ≡ true
    → contains_char b'\r' config ≡ false
    → find_aesgcm_keys_block (lines config) ≡ ok block
    → RotatesText name secret config block
rotate-RotatesText name secret config block is_name is_secret newline no_cr found = record {
  at = r.at;
  more = r.more;
  entries = r.entries;
  dual = joined r.dual config;
  single = joined single (joined r.dual config);
  inserted = unfold insert_primary_key in rw r.inserted refl;
  dual_block = rw dual_read r.dual_block;
  dropped = unfold drop_non_primary_keys in rw (dual_read, r.dropped) refl;
  single_lines =
      lines-joined single (joined r.dual config) (ends_with_newline-joined r.dual config newline)
        (with_key r.at (drop block.end (lines config))
          (All-drop IsLine block.end (lines config) free))
        (append_cons-ne-nil _ _ _);
}
  where
    r : Rotates name secret (lines config) block
    r = rotate-Rotates name secret (lines config) block found

    single : List Text
    single =
        take r.at (lines config)
        ++ name_line block.entry_indent name
          ∷ secret_line block.entry_indent secret
          ∷ drop block.end (lines config)

    free : All IsLine (lines config)
    free = lines-IsLine config no_cr

    with_key :
        (n : ℕ) (rest : List Text)
        → All IsLine rest
        → All IsLine (
            take n (lines config)
            ++ name_line block.entry_indent name ∷ secret_line block.entry_indent secret ∷ rest)
    with_key n rest h =
        All-append IsLine (take n (lines config)) _ (All-take IsLine n (lines config) free) (
          name_line-IsLine block.entry_indent name is_name,
          (secret_line-IsLine block.entry_indent secret is_secret, h),
        )

    dual_read : lines (joined r.dual config) ≡ r.dual
    dual_read = rw r.dual_lines (
        lines-joined _ config newline
          (with_key r.at (drop r.at (lines config)) (All-drop IsLine r.at (lines config) free))
          (append_cons-ne-nil _ _ _))
