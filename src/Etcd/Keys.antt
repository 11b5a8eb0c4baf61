-- ===== src/Etcd/Keys.antt =====
-- The rewriting of the `EncryptionConfiguration`: `find_aesgcm_keys_block`, `insert_primary_key` and
-- `drop_non_primary_keys` of rust/crates/hbird-cli/src/commands/etcd.rs.
pub mod Block
pub mod Found
pub mod Located
pub mod Fresh
pub mod Dual
pub mod Rewrite
pub mod Whole
use hummingbird_k8s.Base.{
  ℕ, zero, suc, ◌+◌, ◌-◌, leb, Bool, true, false, List, [], ◌∷◌, ◌++◌, Option, none, some, Result,
  ok, err, ◌>>=◌, ok_or, ◌==◌, if◌then◌else◌, is_empty, take, drop, length,
}
use hummingbird_k8s.Text.{
  Text, text, eq, len, lines, join, trim, trim_start, starts_with, strip_prefix,
}

pub data Error : Type 0 where
  no_aesgcm_provider no_keys_list empty_keys_list : Error

pub record KeysBlock : Type 0 where
  pub keys_line : ℕ
  pub entry_indent : ℕ
  pub entries : List ℕ
  pub end : ℕ

unfoldable pub indent_of : Text → ℕ
indent_of line = len line - len (trim_start line)

unfoldable pub is_blank : Text → Bool
is_blank line = is_empty (trim line)

unfoldable pub without_dash : Text → Text
without_dash t = elim (strip_prefix (text "- ") t) [ none ↦ t | some rest ↦ rest ]

unfoldable pub is_aesgcm : Text → Bool
is_aesgcm line = starts_with (text "aesgcm:") (without_dash (trim_start line))

unfoldable pub is_entry : Text → Bool
is_entry line = starts_with (text "- ") (trim_start line)

unfoldable pub is_keys : Text → Bool
is_keys line = eq (trim line) (text "keys:")

abbrev pub next_index : Option ℕ → Option ℕ
next_index none = none
next_index (some i) = some (suc i)

-- `.position(p)`
unfoldable pub position : (Text → Bool) → List Text → Option ℕ
position p [] = none
position p (l ∷ ls) = let rest = position p ls in if p l then some 0 else next_index rest

-- The first loop, from the line after the provider's; the index counts from there.
unfoldable pub find_keys_line : ℕ → List Text → Option ℕ
find_keys_line aes_indent [] = none
find_keys_line aes_indent (l ∷ ls) =
    let rest = next_index (find_keys_line aes_indent ls) in
    if is_blank l
    then rest
    else if leb (indent_of l) aes_indent
    then none
    else if is_keys l
    then some 0
    else rest

-- The variables of the second loop at its end.
pub record Scan : Type 0 where
  pub entries : List ℕ
  pub entry_indent : Option ℕ
  pub end : ℕ

unfoldable pub push : ℕ → Scan → Scan
push i s = record s { entries = i ∷ s.entries }

abbrev pub same_indent : Option ℕ → ℕ → Bool
same_indent none ind = true
same_indent (some e) ind = ind == e

-- The second loop, at line `i`.
unfoldable pub scan : ℕ → ℕ → Option ℕ → List Text → Scan
scan keys_indent i entry_indent [] = record { entries = []; entry_indent = entry_indent; end = i }
scan keys_indent i entry_indent (l ∷ ls) =
    let ind = indent_of l in
    let skipped = scan keys_indent (suc i) entry_indent ls in
    let pushed = push i (scan keys_indent (suc i) (some ind) ls) in
    if is_blank l
    then skipped
    else if leb ind keys_indent
    then (record { entries = []; entry_indent = entry_indent; end = i })
    else if is_entry l
    then (if same_indent entry_indent ind then pushed else skipped)
    else skipped

unfoldable pub to_block : ℕ → Scan → Result Error KeysBlock
to_block keys_line s = ok_or s.entry_indent empty_keys_list >>= λ e.
    ok (record { keys_line = keys_line; entry_indent = e; entries = s.entries; end = s.end })

abbrev pub line_at : ℕ → List Text → Text
line_at i [] = []
line_at zero (l ∷ ls) = l
line_at (suc i) (l ∷ ls) = line_at i ls

unfoldable pub block_at : ℕ → ℕ → List Text → Result Error KeysBlock
block_at aes_idx offset ls =
    let keys_line = suc (aes_idx + offset) in
    to_block keys_line
      (scan (indent_of (line_at keys_line ls)) (suc keys_line) none (drop (suc keys_line) ls))

unfoldable pub find_aesgcm_keys_block : List Text → Result Error KeysBlock
find_aesgcm_keys_block ls = ok_or (position is_aesgcm ls) no_aesgcm_provider >>= λ aes_idx.
    ok_or (find_keys_line (indent_of (line_at aes_idx ls)) (drop (suc aes_idx) ls)) no_keys_list
    >>= λ offset. block_at aes_idx offset ls

-- `" ".repeat(n)`
unfoldable pub spaces : ℕ → Text
spaces zero = []
spaces (suc n) = b' ' ∷ spaces n

unfoldable pub name_line : ℕ → Text → Text
name_line indent name = spaces indent ++ (text "- name: " ++ name)

unfoldable pub secret_line : ℕ → Text → Text
secret_line indent secret = spaces indent ++ (text "  secret: " ++ secret)

abbrev pub insert_at : KeysBlock → Text → Text → List Text → List ℕ → Result Error (List Text)
insert_at block name secret ls [] = err empty_keys_list
insert_at block name secret ls (at ∷ more) = ok (
    take at ls
    ++ name_line block.entry_indent name ∷ secret_line block.entry_indent secret ∷ drop at ls)

-- The lines that `insert_primary_key` joins.
unfoldable pub insert_primary_lines : Text → Text → List Text → Result Error (List Text)
insert_primary_lines name secret ls =
    find_aesgcm_keys_block ls >>= λ block. insert_at block name secret ls block.entries

abbrev pub drop_from : KeysBlock → List Text → List ℕ → Option (List Text)
drop_from block ls (first ∷ second ∷ more) = some (take second ls ++ drop block.end ls)
drop_from block ls _ = none

-- The lines that `drop_non_primary_keys` joins; `none` if there is nothing to drop.
unfoldable pub drop_non_primary_lines : List Text → Result Error (Option (List Text))
drop_non_primary_lines ls =
    find_aesgcm_keys_block ls >>= λ block. ok (drop_from block ls block.entries)

unfoldable pub ends_with_newline : Text → Bool
ends_with_newline [] = false
ends_with_newline (c ∷ []) = c == b'\n'
ends_with_newline (c ∷ d ∷ s) = ends_with_newline (d ∷ s)

unfoldable pub joined : List Text → Text → Text
joined ls original = join (b'\n' ∷ []) ls ++ (if ends_with_newline original then b'\n' ∷ [] else [])

unfoldable pub insert_primary_key : Text → Text → Text → Result Error Text
insert_primary_key config name secret =
    insert_primary_lines name secret (lines config) >>= λ out. ok (joined out config)

unfoldable pub drop_non_primary_keys : Text → Result Error Text
drop_non_primary_keys config = drop_non_primary_lines (lines config) >>= λ o.
    ok (elim o [ none ↦ config | some out ↦ joined out config ])
