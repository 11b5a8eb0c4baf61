-- ===== src/Etcd/Keys/Located.antt =====
-- The lines around a list of keys that `find_aesgcm_keys_block` finds.
use mathlib.Core.Path.{subst}
use hummingbird_k8s.Base.{
  ℕ, suc, ◌+◌, true, List, ◌∷◌, ◌++◌, ◌≡◌, sym, ap, ◌∙◌, Option, none, some, ok, ok_or, length,
  drop, All, >>=-eq-ok, ok-injective,
}
use hummingbird_k8s.Text.{Text}
use hummingbird_k8s.Etcd.Keys.{
  KeysBlock, Error, no_aesgcm_provider, no_keys_list, empty_keys_list, indent_of, is_aesgcm,
  position, find_keys_line, Scan, push, scan, to_block, line_at, find_aesgcm_keys_block,
}
use hummingbird_k8s.Etcd.Keys.Block.{
  not_aesgcm, skips_keys, hits_keys, skips_entry, hits_entry, FirstHit, IsFirst, position-IsFirst,
  find_keys_line-IsFirst, FirstEntry, HasFirst, scan-HasFirst,
}
use hummingbird_k8s.Etcd.Keys.Found.{
  drop-length, line_at-length, Head, head_lines, keys_index, find-head,
}

-- A list of keys with an entry, and where it lies.
pub record Located (ls : List Text) (block : KeysBlock) : Type 0 where
  pub head : Head
  pub between : List Text
  pub first : Text
  pub later : List Text
  pub splits : ls ≡ head_lines head (between ++ first ∷ later)
  pub skipped : All (λ l. skips_entry (indent_of head.keys) l ≡ true) between
  pub is_first : hits_entry (indent_of head.keys) first ≡ true
  pub block_of :
      to_block (keys_index head) (
        push (length between + suc (keys_index head)) (
          scan
            (indent_of head.keys)
            (suc (length between + suc (keys_index head)))
            (some (indent_of first))
            later))
      ≡ ok block

ok_or-some {ℓ} : {A : Type ℓ} (o : Option A) (e : Error) {a : A} → ok_or o e ≡ ok a → o ≡ some a
ok_or-some none e h = absurd cc
ok_or-some (some b) e h = ap some (ok-injective h)

to_block-entry :
    (n : ℕ) (s : Scan) {block : KeysBlock}
    → to_block n s ≡ ok block
    → (j : ℕ) × (s.entry_indent ≡ some j)
unfolding to_block
to_block-entry n s h =
    let through = >>=-eq-ok (ok_or s.entry_indent empty_keys_list) _ h in
    (through.0, ok_or-some s.entry_indent empty_keys_list through.1)

below_head :
    (h : Head) (rest ls : List Text) (block : KeysBlock)
    → ls ≡ head_lines h rest
    → find_aesgcm_keys_block ls ≡ ok block
    → Located ls block
below_head h rest ls block e found = located
  where
    keys_indent : ℕ
    keys_indent = indent_of h.keys

    scanned : Scan
    scanned = scan keys_indent (suc (keys_index h)) none rest

    is_block : to_block (keys_index h) scanned ≡ ok block
    is_block = sym (find-head h rest) ∙ (ap find_aesgcm_keys_block (sym e) ∙ found)

    entry : (j : ℕ) × (scanned.entry_indent ≡ some j)
    entry = to_block-entry (keys_index h) scanned is_block

    f : FirstEntry keys_indent (suc (keys_index h)) rest scanned entry.0
    f =
        subst (HasFirst keys_indent (suc (keys_index h)) rest scanned) entry.1
          (scan-HasFirst keys_indent (suc (keys_index h)) rest)

    located : Located ls block
    located = record {
      head = h;
      between = f.before;
      first = f.line;
      later = f.later;
      splits = e ∙ ap (head_lines h) f.splits;
      skipped = f.skipped;
      is_first = f.hit;
      block_of = ap (to_block (keys_index h)) (sym f.scanned) ∙ is_block;
    }

below_provider :
    (ls : List Text) (a : ℕ) (block : KeysBlock)
    → FirstHit not_aesgcm is_aesgcm ls a
    → (o : ℕ) × (find_keys_line (indent_of (line_at a ls)) (drop (suc a) ls) ≡ some o)
    → find_aesgcm_keys_block ls ≡ ok block
    → Located ls block
below_provider ls a block f (o, e) found = below_head head g.later ls block splits found
  where
    is_line : line_at a ls ≡ f.line
    is_line =
        ap (λ n. line_at n ls) f.index
        ∙ (ap (line_at (length f.before)) f.splits ∙ line_at-length f.before f.line f.later)

    is_rest : drop (suc a) ls ≡ f.later
    is_rest =
        ap (λ n. drop (suc n) ls) f.index
        ∙ (ap (drop (suc (length f.before))) f.splits ∙ drop-length f.before f.line f.later)

    at_keys : find_keys_line (indent_of f.line) f.later ≡ some o
    at_keys =
        ap (λ l. find_keys_line (indent_of l) f.later) (sym is_line)
        ∙ (ap (find_keys_line (indent_of (line_at a ls))) (sym is_rest) ∙ e)

    g : FirstHit (skips_keys (indent_of f.line)) (hits_keys (indent_of f.line)) f.later o
    g =
        subst (IsFirst (skips_keys (indent_of f.line)) (hits_keys (indent_of f.line)) f.later)
          at_keys (find_keys_line-IsFirst (indent_of f.line) f.later)

    head : Head
    head = record {
      top = f.before;
      provider = f.line;
      middle = g.before;
      keys = g.line;
      free = f.skipped;
      is_provider = f.hit;
      middle_skipped = g.skipped;
      is_list = g.hit;
    }

    splits : ls ≡ head_lines head g.later
    splits = f.splits ∙ unfold head_lines in ap (λ r. f.before ++ f.line ∷ r) g.splits

pub find-Located :
    (ls : List Text) (block : KeysBlock) → find_aesgcm_keys_block ls ≡ ok block → Located ls block
find-Located ls block found = located
  where
    through :
        (a : ℕ) × (position is_aesgcm ls ≡ some a)
        × (o : ℕ) × (find_keys_line (indent_of (line_at a ls)) (drop (suc a) ls) ≡ some o)
    through =
        unfold find_aesgcm_keys_block in
        let p = >>=-eq-ok (ok_or (position is_aesgcm ls) no_aesgcm_provider) _ found in
        let q =
          >>=-eq-ok
            (ok_or (find_keys_line (indent_of (line_at p.0 ls)) (drop (suc p.0) ls)) no_keys_list) _
            p.2 in
        (p.0, ok_or-some _ _ p.1, q.0, ok_or-some _ _ q.1)

    located : Located ls block
    located =
        below_provider ls through.0 block
          (subst (IsFirst not_aesgcm is_aesgcm ls) through.1 (position-IsFirst ls))
          (through.2, through.3) found
