-- ===== src/Config/Tokenizer/Printer.antt =====
-- A writer of configuration files, which the program lacks: it states what the tokenizer reads.
use hummingbird_k8s.Base.{ℕ, ◌+◌, List, [], ◌∷◌, ◌++◌, false, true, ◌≡◌}
use hummingbird_k8s.Text.{Text, contains_char}
use hummingbird_k8s.Config.Data.{Value, scalar, array, RawMap, insert}
use hummingbird_k8s.Config.Tokenizer.{is_valid_key}

unfoldable pub print_elements : List Text → Text
print_elements [] = []
print_elements (v ∷ vs) = b'"' ∷ (v ++ (b'"' ∷ b' ' ∷ print_elements vs))

-- `"text"` or `("a" "b" )`, without its last character, which ends the line.
unfoldable pub print_value : Value → Text
unfolding print_elements
print_value (scalar v) = b'"' ∷ v
print_value (array vs) = b'(' ∷ print_elements vs

unfoldable pub closing : Value → ℕ
closing (scalar v) = b'"'
closing (array vs) = b')'

-- `KEY="text"` or `KEY=("a" "b" )` on a line.
unfoldable pub print_line : Text × Value → Text
unfolding print_value closing
print_line (k, v) = k ++ (b'=' ∷ (print_value v ++ closing v ∷ []))

unfoldable pub print_file : List (Text × Value) → Text
unfolding print_line
print_file [] = []
print_file (a ∷ rest) = print_line a ++ b'\n' ∷ print_file rest

-- A text that double quotes can hold on one line.
pub record IsQuotable (v : Text) : Type 0 where
  pub no_quote : contains_char b'"' v ≡ false
  pub no_newline : contains_char b'\n' v ≡ false

-- An element of an array: a `)` ends the array even inside quotes.
pub record IsElement (v : Text) : Type 0 where
  pub quotable : IsQuotable v
  pub no_paren : contains_char b')' v ≡ false

pub data IsElements : List Text → Type 0 where
  nil : IsElements []
  cons : {v : Text} {vs : List Text} → IsElement v → IsElements vs → IsElements (v ∷ vs)

abbrev pub IsPrintable : Value → Type 0
IsPrintable (scalar v) = IsQuotable v
IsPrintable (array vs) = IsElements vs

pub data ArePrintable : List (Text × Value) → Type 0 where
  nil : ArePrintable []
  cons :
      {k : Text} {v : Value} {rest : List (Text × Value)}
      → is_valid_key k ≡ true
      → IsPrintable v
      → ArePrintable rest
      → ArePrintable ((k, v) ∷ rest)

-- The map of the assignments, one to a line, where line `idx + 1` holds the first.
unfoldable pub assigned : ℕ → List (Text × Value) → RawMap → RawMap
assigned idx [] out = out
assigned idx ((k, v) ∷ rest) out = assigned (idx + 1) rest (insert k (idx + 1, v) out)
