-- ===== src/Etcd/Keys/Rewrite.antt =====
-- What the two rewritings make of the list of keys.
use mathlib.Core.Path.{subst}
use hummingbird_k8s.Base.{
  ℕ, suc, ◌+◌, ◌≤◌, true, List, ◌∷◌, ◌++◌, ◌≡◌, refl, sym, ap, ◌∙◌, arith, some, ok, length, take,
  drop, All, ok-injective,
}
use hummingbird_k8s.Text.{Text}
use hummingbird_k8s.Etcd.Keys.{
  KeysBlock, indent_of, Scan, scan, to_block, find_aesgcm_keys_block, name_line, secret_line,
  insert_primary_lines, drop_non_primary_lines,
}
use hummingbird_k8s.Etcd.Keys.Block.{skips_entry, hits_entry}
use hummingbird_k8s.Etcd.Keys.Located.{Located, find-Located}
use hummingbird_k8s.Etcd.Keys.Found.{
  Head, head_lines, keys_index, find-head, head_lines-append, length-head_lines, scan-skipped,
}
use hummingbird_k8s.Etcd.Keys.Fresh.{shift_all}
use hummingbird_k8s.Etcd.Keys.Dual.{
  scan-end_le, scan-dual, block_from, to_block-scan, to_block-dual, inserted_lines, dropped_lines,
}

-- The rotation of the key, line by line.
pub record Rotates (name secret : Text) (ls : List Text) (block : KeysBlock) : Type 0 where
  pub at : ℕ
  pub more : List ℕ
  pub entries : block.entries ≡ at ∷ more
  pub dual : List Text
  pub dual_lines :
      dual
      ≡ take at ls
        ++ name_line block.entry_indent name ∷ secret_line block.entry_indent secret ∷ drop at ls
  pub inserted : insert_primary_lines name secret ls ≡ ok dual
  pub dual_block :
      find_aesgcm_keys_block dual
      ≡ ok (record {
        keys_line = block.keys_line;
        entry_indent = block.entry_indent;
        entries = at ∷ shift_all block.entries;
        end = suc (suc block.end);
      })
  pub dropped :
      drop_non_primary_lines dual
      ≡ ok (
          some (
            take at ls
            ++ name_line block.entry_indent name
              ∷ secret_line block.entry_indent secret
              ∷ drop block.end ls))

-- The rewritings below a head, for the keys from the first entry on.
rotate-below :
    (name secret first : Text) (head : Head) (between later : List Text)
    → All (λ l. skips_entry (indent_of head.keys) l ≡ true) between
    → hits_entry (indent_of head.keys) first ≡ true
    → let at = length between + suc (keys_index head) in
      let block =
        block_from
          (keys_index head)
          (indent_of first)
          at
          (scan (indent_of head.keys) (suc at) (some (indent_of first)) later) in
      find_aesgcm_keys_block (head_lines head (between ++ first ∷ later)) ≡ ok block
      → Rotates name secret (head_lines head (between ++ first ∷ later)) block
rotate-below name secret first head between later skipped is_first found = record {
  at = at;
  more = s.entries;
  entries = refl;
  dual = Q ++ N ∷ M ∷ first ∷ later;
  dual_lines = sym (lines_at N M);
  inserted = unfold insert_primary_lines in rw found (ap ok (lines_at N M));
  dual_block = dual_block;
  dropped =
      unfold drop_non_primary_lines in
      rw dual_block (ap (λ o. ok (some o)) (final N M s.end in_range));
}
  where
    k : ℕ
    k = indent_of head.keys

    at : ℕ
    at = length between + suc (keys_index head)

    s : Scan
    s = scan k (suc at) (some (indent_of first)) later

    N : Text
    N = name_line (indent_of first) name

    M : Text
    M = secret_line (indent_of first) secret

    Q : List Text
    Q = head_lines head between

    ls : List Text
    ls = head_lines head (between ++ first ∷ later)

    prefix : (R : List Text) → head_lines head (between ++ R) ≡ Q ++ R
    prefix R = head_lines-append head between R

    is_at : length Q ≡ at
    is_at = length-head_lines head between

    in_range : at ≤ s.end
    in_range = omega (arith, scan-end_le k (suc at) (some (indent_of first)) later)

    lines_at : (a b : Text) → take at ls ++ a ∷ b ∷ drop at ls ≡ Q ++ a ∷ b ∷ first ∷ later
    lines_at a b = rw (← is_at, prefix (first ∷ later)) (inserted_lines Q (first ∷ later) a b)

    dual_block :
        find_aesgcm_keys_block (Q ++ N ∷ M ∷ first ∷ later)
        ≡ ok (record {
          keys_line = keys_index head;
          entry_indent = indent_of first;
          entries = at ∷ suc (suc at) ∷ shift_all s.entries;
          end = suc (suc s.end);
        })
    dual_block =
        ap find_aesgcm_keys_block (sym (prefix (N ∷ M ∷ first ∷ later)))
        ∙ (find-head head (between ++ N ∷ M ∷ first ∷ later)
            ∙ (ap (to_block (keys_index head)) (
                  scan-skipped k (suc (keys_index head)) between (N ∷ M ∷ first ∷ later) skipped
                  ∙ scan-dual k at name secret first later is_first)
                ∙ to_block-dual (keys_index head) k at (indent_of first) later))

    final :
        (a b : Text) (end : ℕ)
        → at ≤ end
        → take (suc (suc at)) (Q ++ a ∷ b ∷ first ∷ later)
            ++ drop (suc (suc end)) (Q ++ a ∷ b ∷ first ∷ later)
          ≡ take at ls ++ a ∷ b ∷ drop end ls
    final a b end h =
        rw (← is_at, prefix (first ∷ later)) (dropped_lines Q (first ∷ later) a b end (rw is_at h))

-- In any configuration in which the aesgcm provider's keys are found, `insert_primary_key` puts the
-- new key first, and every old key is still found behind it; `drop_non_primary_keys` then leaves
-- the original lines with the whole list of old keys replaced by the new key.
pub rotate-Rotates :
    (name secret : Text) (ls : List Text) (block : KeysBlock)
    → find_aesgcm_keys_block ls ≡ ok block
    → Rotates name secret ls block
rotate-Rotates name secret ls block found = rotates
  where
    l : Located ls block
    l = find-Located ls block found

    open l use {head, between, first, later}

    at : ℕ
    at = length between + suc (keys_index head)

    is_block :
        block_from
          (keys_index head)
          (indent_of first)
          at
          (scan (indent_of head.keys) (suc at) (some (indent_of first)) later)
        ≡ block
    is_block = ok-injective (
        sym (to_block-scan (keys_index head) (indent_of head.keys) at (indent_of first) later)
        ∙ l.block_of)

    rotates : Rotates name secret ls block
    rotates =
        subst (λ b. Rotates name secret ls b) is_block
          (subst
            (λ ls'.
              find_aesgcm_keys_block ls' ≡ ok block
              → Rotates name secret ls' (
                  block_from (keys_index head) (indent_of first) at
                    (scan (indent_of head.keys) (suc at) (some (indent_of first)) later)))
            (sym l.splits)
            (λ e.
              rotate-below name secret first head between later l.skipped l.is_first
                (e ∙ ap ok (sym is_block)))
            found)
