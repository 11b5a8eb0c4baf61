-- ===== src/Config/Tokenizer/Lines.antt =====
-- The line that an error of the tokenizer names, and the text that it quotes.
use hummingbird_k8s.Base.{
  ℕ, suc, ◌+◌, ◌-◌, ◌≤◌, ◌<◌, List, ◌∷◌, ◌++◌, ◌≡◌, some, length, get_elem?, drop,
}
use hummingbird_k8s.Text.{Text}
use hummingbird_k8s.Config.Data.{
  Error, unrecognized_line, unterminated_array, unterminated_quote, trailing_content,
}
use hummingbird_k8s.Config.Tokenizer.Quoted.{InArray}

-- The text `r` that an error at line `m` quotes for a quote that is not closed, where line `n` is
-- `raw`: this line, or the text of the array that opens in it, as far as the line `m` that closes it.
pub data QuotesAt (n : ℕ) (raw : Text) (rest : List Text) (m : ℕ) (r : Text) : Type 0 where
  of_line : m ≡ n → r ≡ raw → QuotesAt n raw rest m r
  of_array :
      (before first : Text)
      → raw ≡ before ++ b'(' ∷ first
      → InArray n first rest m r
      → QuotesAt n raw rest m r

-- What an error at line `n` with text `raw` and the lines `rest` behind it may say.
abbrev LocalTo : ℕ → Text → List Text → Error → Type 0
LocalTo n raw rest (unrecognized_line m r) = (m ≡ n) × (r ≡ raw)
LocalTo n raw rest (trailing_content m r) = (m ≡ n) × (r ≡ raw)
LocalTo n raw rest (unterminated_array key m) = m ≡ n
LocalTo n raw rest (unterminated_quote m r) = QuotesAt n raw rest m r
LocalTo n raw rest _ = ⊥

-- Of the lines behind index `idx`: what is quoted for an open quote, from the line where it begins.
pub data QuotedIn (idx : ℕ) (ls : List Text) (m : ℕ) (r : Text) : Type 0 where
  from_line :
      (n : ℕ) (raw : Text) (rest : List Text)
      → idx < n
      → drop (n - suc idx) ls ≡ raw ∷ rest
      → QuotesAt n raw rest m r
      → QuotedIn idx ls m r

-- Of the lines behind index `idx`: an error names a line that is there, and quotes the line of its
-- number or, for a quote that is not closed in an array, the text of the array.
abbrev pub PointsInto : ℕ → List Text → Error → Type 0
PointsInto idx ls (unrecognized_line m r) = (idx < m) × (get_elem? ls (m - suc idx) ≡ some r)
PointsInto idx ls (trailing_content m r) = (idx < m) × (get_elem? ls (m - suc idx) ≡ some r)
PointsInto idx ls (unterminated_array key m) = (idx < m) × (m ≤ idx + length ls)
PointsInto idx ls (unterminated_quote m r) = (idx < m) × (m ≤ idx + length ls) × QuotedIn idx ls m r
PointsInto idx ls _ = ⊥
