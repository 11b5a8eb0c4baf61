-- ===== src/Etcd/Names/Lines.antt =====
-- The names and secrets of keys have one line.
use hummingbird_k8s.Base.{ℕ, zero, suc, ◌-◌, ◌<◌, List, [], ◌∷◌, ◌++◌, refl, arith, length}
use hummingbird_k8s.Text.{Text, text, contains_char, is_ascii_digit}
use hummingbird_k8s.Text.Split.{IsLine, contains_char-append}
use hummingbird_k8s.Text.Numbers.{to_text, to_text-free}
use hummingbird_k8s.Etcd.Names.{zeros, padded, rotation_key_name, base64_char, base64_encode}

append-IsLine : (s t : Text) → IsLine s → IsLine t → IsLine (s ++ t)
append-IsLine s t h k =
    (ground (arith, contains_char-append b'\n' s t), ground (arith, contains_char-append b'\r' s t))

zeros-IsLine : (n : ℕ) → IsLine (zeros n)
unfolding zeros contains_char
zeros-IsLine zero = (refl, refl)
zeros-IsLine (suc n) = zeros-IsLine n

padded-IsLine : (width n : ℕ) → IsLine (padded width n)
unfolding padded is_ascii_digit
padded-IsLine width n =
    append-IsLine (zeros (width - length (to_text n))) (to_text n) (zeros-IsLine _)
      (to_text-free b'\n' n refl, to_text-free b'\r' n refl)

pub rotation_key_name-IsLine : (epoch_secs : ℕ) → IsLine (rotation_key_name epoch_secs)
unfolding rotation_key_name text
rotation_key_name-IsLine epoch_secs =
    append-IsLine (text "key-") _ (unfold contains_char in (refl, refl)) (
      append-IsLine _ _ (padded-IsLine 4 _) (
        append-IsLine _ _ (padded-IsLine 2 _) (
          append-IsLine _ _ (padded-IsLine 2 _) (
            append-IsLine _ _ (padded-IsLine 2 _)
              (append-IsLine _ _ (padded-IsLine 2 _) (padded-IsLine 2 _))))))

cons-IsLine : (n : ℕ) (s : Text) → n < 64 → IsLine s → IsLine (base64_char n ∷ s)
unfolding base64_char contains_char
cons-IsLine n s h k = (ground arith, ground arith)

equals-IsLine : (s : Text) → IsLine s → IsLine (b'=' ∷ s)
unfolding contains_char
equals-IsLine s h = h

empty-IsLine : IsLine []
unfolding contains_char
empty-IsLine = (refl, refl)

pub base64_encode-IsLine : (bytes : List ℕ) → IsLine (base64_encode bytes)
unfolding base64_encode
base64_encode-IsLine [] = empty-IsLine
base64_encode-IsLine (a ∷ []) =
    cons-IsLine _ _ (omega arith)
      (cons-IsLine _ _ (omega arith) (equals-IsLine _ (equals-IsLine _ empty-IsLine)))
base64_encode-IsLine (a ∷ b ∷ []) =
    cons-IsLine _ _ (omega arith)
      (cons-IsLine _ _ (omega arith) (cons-IsLine _ _ (omega arith) (equals-IsLine _ empty-IsLine)))
base64_encode-IsLine (a ∷ b ∷ c ∷ rest) = cons-IsLine _ _ (omega arith) (
    cons-IsLine _ _ (omega arith)
      (cons-IsLine _ _ (omega arith) (cons-IsLine _ _ (omega arith) (base64_encode-IsLine rest))))
