-- ===== src/Deploy/Sha256.antt =====
-- `sha256_hex` of rust/crates/hbird-cli/src/commands/deploy_cluster.rs. A word of 32 bits is a number
-- below 2 ^ 32.
use Prim.Native.Nat.{bit_and, bit_xor}
use hummingbird_k8s.Base.{
  ℕ, zero, suc, ◌+◌, ◌-◌, ◌*◌, ◌/◌, ◌%◌, ◌^◌, ◌==◌, ltb, List, [], ◌∷◌, ◌++◌, if◌then◌else◌, length,
  take, drop,
}
use hummingbird_k8s.Text.{Text}

abbrev pub u32_mod : ℕ
u32_mod = 4294967296

abbrev pub round_constants : List ℕ
round_constants =
    0x428a2f98 ∷ 0x71374491 ∷ 0xb5c0fbcf ∷ 0xe9b5dba5 ∷ 0x3956c25b ∷ 0x59f111f1 ∷ 0x923f82a4
    ∷ 0xab1c5ed5 ∷ 0xd807aa98 ∷ 0x12835b01 ∷ 0x243185be ∷ 0x550c7dc3 ∷ 0x72be5d74 ∷ 0x80deb1fe
    ∷ 0x9bdc06a7 ∷ 0xc19bf174 ∷ 0xe49b69c1 ∷ 0xefbe4786 ∷ 0x0fc19dc6 ∷ 0x240ca1cc ∷ 0x2de92c6f
    ∷ 0x4a7484aa ∷ 0x5cb0a9dc ∷ 0x76f988da ∷ 0x983e5152 ∷ 0xa831c66d ∷ 0xb00327c8 ∷ 0xbf597fc7
    ∷ 0xc6e00bf3 ∷ 0xd5a79147 ∷ 0x06ca6351 ∷ 0x14292967 ∷ 0x27b70a85 ∷ 0x2e1b2138 ∷ 0x4d2c6dfc
    ∷ 0x53380d13 ∷ 0x650a7354 ∷ 0x766a0abb ∷ 0x81c2c92e ∷ 0x92722c85 ∷ 0xa2bfe8a1 ∷ 0xa81a664b
    ∷ 0xc24b8b70 ∷ 0xc76c51a3 ∷ 0xd192e819 ∷ 0xd6990624 ∷ 0xf40e3585 ∷ 0x106aa070 ∷ 0x19a4c116
    ∷ 0x1e376c08 ∷ 0x2748774c ∷ 0x34b0bcb5 ∷ 0x391c0cb3 ∷ 0x4ed8aa4a ∷ 0x5b9cca4f ∷ 0x682e6ff3
    ∷ 0x748f82ee ∷ 0x78a5636f ∷ 0x84c87814 ∷ 0x8cc70208 ∷ 0x90befffa ∷ 0xa4506ceb ∷ 0xbef9a3f7
    ∷ 0xc67178f2 ∷ []

-- The eight words of the state.
pub record Hash : Type 0 where
  pub a : ℕ
  pub b : ℕ
  pub c : ℕ
  pub d : ℕ
  pub e : ℕ
  pub f : ℕ
  pub g : ℕ
  pub h : ℕ

abbrev pub initial : Hash
initial = record {
  a = 0x6a09e667;
  b = 0xbb67ae85;
  c = 0x3c6ef372;
  d = 0xa54ff53a;
  e = 0x510e527f;
  f = 0x9b05688c;
  g = 0x1f83d9ab;
  h = 0x5be0cd19;
}

-- `wrapping_add`
unfoldable pub add32 : ℕ → ℕ → ℕ
add32 x y = (x + y) % u32_mod

unfoldable pub rotate_right : ℕ → ℕ → ℕ
rotate_right x n = (x / 2 ^ n + x * 2 ^ (32 - n)) % u32_mod

unfoldable pub xor3 : ℕ → ℕ → ℕ → ℕ
xor3 x y z = bit_xor (bit_xor x y) z

-- `while msg.len() % 64 != 56`: the zeros behind a message of `n` bytes, which the fuel of 64 covers.
unfoldable pub zeros_to : ℕ → ℕ → List ℕ
zeros_to zero n = []
zeros_to (suc fuel) n = let rest = zeros_to fuel (suc n) in if n % 64 == 56 then [] else 0 ∷ rest

-- `to_be_bytes` of the number's lowest `n` bytes.
unfoldable pub be_bytes : ℕ → ℕ → List ℕ
be_bytes zero x = []
be_bytes (suc n) x = be_bytes n (x / 256) ++ x % 256 ∷ []

unfoldable pub pad : List ℕ → List ℕ
pad bytes =
    bytes
    ++ 0x80
      ∷ (zeros_to 64 (length bytes + 1) ++ be_bytes 8 (length bytes * 8 % 18446744073709551616))

-- The words of four bytes each.
unfoldable pub be_words : List ℕ → List ℕ
be_words (p ∷ q ∷ r ∷ s ∷ rest) = (p * 16777216 + q * 65536 + r * 256 + s) ∷ be_words rest
be_words _ = []

abbrev pub word_at : ℕ → List ℕ → ℕ
word_at i [] = 0
word_at zero (x ∷ xs) = x
word_at (suc i) (x ∷ xs) = word_at i xs

-- `w[i]` for `i` from 16 on, behind the words so far.
unfoldable pub next_word : ℕ → List ℕ → ℕ
next_word i w =
    let w15 = word_at (i - 15) w in
    let w2 = word_at (i - 2) w in
    let s0 = xor3 (rotate_right w15 7) (rotate_right w15 18) (w15 / 2 ^ 3) in
    let s1 = xor3 (rotate_right w2 17) (rotate_right w2 19) (w2 / 2 ^ 10) in
    add32 (add32 (add32 (word_at (i - 16) w) s0) (word_at (i - 7) w)) s1

unfoldable pub schedule : ℕ → ℕ → List ℕ → List ℕ
schedule zero i w = w
schedule (suc n) i w = schedule n (suc i) (w ++ next_word i w ∷ [])

-- One of the 64 rounds; `!e` is the complement to the largest word.
unfoldable pub round : ℕ → ℕ → Hash → Hash
round k w s =
    let s1 = xor3 (rotate_right s.e 6) (rotate_right s.e 11) (rotate_right s.e 25) in
    let ch = bit_xor (bit_and s.e s.f) (bit_and (4294967295 - s.e) s.g) in
    let t1 = add32 (add32 (add32 (add32 s.h s1) ch) k) w in
    let s0 = xor3 (rotate_right s.a 2) (rotate_right s.a 13) (rotate_right s.a 22) in
    let maj = xor3 (bit_and s.a s.b) (bit_and s.a s.c) (bit_and s.b s.c) in
    record {
      a = add32 t1 (add32 s0 maj);
      b = s.a;
      c = s.b;
      d = s.c;
      e = add32 s.d t1;
      f = s.e;
      g = s.f;
      h = s.g;
    }

unfoldable pub rounds : List ℕ → List ℕ → Hash → Hash
rounds (k ∷ ks) (w ∷ ws) s = rounds ks ws (round k w s)
rounds _ _ s = s

unfoldable pub compress : List ℕ → Hash → Hash
compress chunk s =
    let t = rounds round_constants (schedule 48 16 (be_words chunk)) s in
    record {
      a = add32 s.a t.a;
      b = add32 s.b t.b;
      c = add32 s.c t.c;
      d = add32 s.d t.d;
      e = add32 s.e t.e;
      f = add32 s.f t.f;
      g = add32 s.g t.g;
      h = add32 s.h t.h;
    }

-- `chunks_exact(64)`: as many chunks as the number says, which is the message's length over 64.
unfoldable pub compress_all : ℕ → List ℕ → Hash → Hash
compress_all zero msg s = s
compress_all (suc n) msg s = compress_all n (drop 64 msg) (compress (take 64 msg) s)

unfoldable pub hex_digit : ℕ → ℕ
hex_digit n = if ltb n 10 then b'0' + n else b'a' + (n - 10)

-- `{x:08x}`
unfoldable pub hex8 : ℕ → Text
hex8 x =
    hex_digit (x / 268435456 % 16)
    ∷ hex_digit (x / 16777216 % 16)
    ∷ hex_digit (x / 1048576 % 16)
    ∷ hex_digit (x / 65536 % 16)
    ∷ hex_digit (x / 4096 % 16)
    ∷ hex_digit (x / 256 % 16)
    ∷ hex_digit (x / 16 % 16)
    ∷ hex_digit (x % 16)
    ∷ []

unfoldable pub sha256_hex : List ℕ → Text
sha256_hex bytes =
    let msg = pad bytes in
    let s = compress_all (length msg / 64) msg initial in
    hex8 s.a
    ++ (hex8 s.b ++ (hex8 s.c ++ (hex8 s.d ++ (hex8 s.e ++ (hex8 s.f ++ (hex8 s.g ++ hex8 s.h))))))
