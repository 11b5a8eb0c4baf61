-- ===== src/Virt/Shell.antt =====
-- `shell_quote` of rust/crates/hbird-virt/src/lib.rs.
pub mod Words
use hummingbird_k8s.Base.{ℕ, Bool, ◌||◌, List, [], ◌∷◌, ◌++◌, ◌==◌, if◌then◌else◌, all}
use hummingbird_k8s.Text.{Text, is_ascii_alphanumeric}

unfoldable pub is_plain : ℕ → Bool
unfolding is_ascii_alphanumeric
is_plain b = is_ascii_alphanumeric b || (b == b'-' || b == b'_' || b == b'.')

-- The loop over the characters: each `'` becomes `'\''`.
unfoldable pub escape_quotes : Text → Text
escape_quotes [] = []
escape_quotes (c ∷ s) =
    (if c == b'\'' then b'\'' ∷ b'\\' ∷ b'\'' ∷ b'\'' ∷ [] else c ∷ []) ++ escape_quotes s

unfoldable pub shell_quote : Text → Text
unfolding is_plain escape_quotes
shell_quote [] = b'\'' ∷ b'\'' ∷ []
shell_quote (c ∷ s) =
    if all is_plain (c ∷ s) then c ∷ s else b'\'' ∷ (escape_quotes (c ∷ s) ++ b'\'' ∷ [])
