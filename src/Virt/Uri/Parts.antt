-- ===== src/Virt/Uri/Parts.antt =====
-- The parts of a URI: what `parse` makes of each part that `Display` writes.
use hummingbird_k8s.Base.{
  ℕ, ◌≤◌, true, false, [], ◌∷◌, ◌++◌, ◌≡◌, ◌≢◌, ◌⊎◌, refl, ap, arith, Option, none, some, ◌==◌, all,
  is_empty, Result, ok, ◌>>=◌, append_assoc, append-nil,
}
use hummingbird_k8s.Text.{
  Text, text, eq, contains_char, split_once, rsplit_once, is_ascii_alphanumeric, is_ascii_digit,
}
use hummingbird_k8s.Text.Split.{
  split_once-append, split_once-none, rsplit_once-append, rsplit_once-none, contains_char-append,
  strip_prefix-append,
}
use hummingbird_k8s.Text.Numbers.{parse_uint-to_text, to_text, u16_max, to_text-free}
use hummingbird_k8s.Virt.Data.{Error}
use hummingbird_k8s.Virt.Uri.{
  Instance, system, session, instance_text, QemuSshUri, Field, user_token, is_token_char,
  validate_safe_token, parse_port, is_bracketed, split_host_port, split_plain, split_query,
  split_user, validate_user, validate_host, require, parse_instance, parse_authority, parse,
  user_text, port_text, query_text,
}

-- What `validate_safe_token` accepts.
abbrev pub IsToken : Text → Type 0
IsToken [] = ⊥
IsToken (c ∷ s) = ((c == b'-') ≡ false) × (all is_token_char (c ∷ s) ≡ true)

pub validate_safe_token-ok :
    (s : Text) (f : Field) (raw : Text) → IsToken s → validate_safe_token s f raw ≡ ok tt
unfolding validate_safe_token
validate_safe_token-ok [] f raw h = absurd h
validate_safe_token-ok (c ∷ s) f raw h = ground arith

token_chars-free :
    (c : ℕ) (s : Text)
    → is_token_char c ≡ false
    → all is_token_char s ≡ true
    → contains_char c s ≡ false
unfolding contains_char
token_chars-free c [] h k = refl
token_chars-free c (d ∷ s) h k = ground (arith, token_chars-free c s, ap is_token_char)

-- A character that no token holds, such as those that delimit the parts of a URI.
pub IsToken-free :
    (c : ℕ) (s : Text) → is_token_char c ≡ false → IsToken s → contains_char c s ≡ false
IsToken-free c [] h t = absurd t
IsToken-free c (d ∷ s) h t = token_chars-free c (d ∷ s) h t.1

-- A host as `Display` writes it: a token, or an address with colons in brackets.
abbrev pub IsAddress : Text → Type 0
IsAddress h =
    (contains_char b':' h ≡ true)
    × (contains_char b']' h ≡ false)
    × (contains_char b'@' h ≡ false)
    × (contains_char b'/' h ≡ false)
    × (contains_char b'?' h ≡ false)

abbrev pub ForSome {ℓ} : {A : Type ℓ} → (A → Type 0) → Option A → Type 0
ForSome P none = Unit
ForSome P (some a) = P a

-- A URI that `Display` writes without ambiguity.
pub record IsRegular (u : QemuSshUri) : Type 0 where
  pub user : ForSome IsToken u.user
  pub host : IsToken u.host ⊎ IsAddress u.host
  pub port : ForSome (λ p. p ≤ u16_max) u.port
  pub query : ForSome (λ q. q ≢ []) u.query

-- A text that can stand where the authority's host and port stand.
pub record IsPlace (hp : Text) : Type 0 where
  pub no_at : contains_char b'@' hp ≡ false
  pub no_slash : contains_char b'/' hp ≡ false
  pub no_question : contains_char b'?' hp ≡ false
  pub not_empty : hp ≢ []

pub port-free :
    (c : ℕ) (p : Option ℕ)
    → is_token_char c ≡ false
    → (c == b':') ≡ false
    → contains_char c (port_text p) ≡ false
unfolding port_text contains_char is_token_char is_ascii_alphanumeric
port-free c none h k = refl
port-free c (some n) h k = ground (arith, to_text-free c n (unfold is_ascii_digit in ground arith))

parse_port-to_text : (raw : Text) (n : ℕ) → n ≤ u16_max → parse_port raw (to_text n) ≡ ok (some n)
unfolding parse_port
parse_port-to_text raw n h = rw (parse_uint-to_text u16_max n h, parse_port)

pub IsToken-not_bracket : (c : ℕ) (h : Text) → IsToken (c ∷ h) → (c == b'[') ≡ false
unfolding is_token_char is_ascii_alphanumeric
IsToken-not_bracket c h t = ground arith

abbrev place : Text → Option ℕ → Result Error (Text × Option ℕ)
place h port = ok (h, port)

-- The host and the port of a token.
pub split_host_port-token :
    (raw h : Text) (p : Option ℕ)
    → IsToken h
    → ForSome (λ n. n ≤ u16_max) p
    → split_host_port (h ++ port_text p) raw ≡ ok (h, p)
unfolding split_host_port port_text is_token_char is_ascii_alphanumeric
split_host_port-token raw [] p t k = absurd t
split_host_port-token raw (c ∷ h) none t k =
    rw (IsToken-not_bracket c h t, append-nil h)
      (rw (rsplit_once-none b':' (c ∷ h) (IsToken-free b':' (c ∷ h) refl t)))
split_host_port-token raw (c ∷ h) (some n) t k = rw (IsToken-not_bracket c h t) (
    rw
      (rsplit_once-append b':' (c ∷ h) (to_text n)
        (to_text-free b':' n (unfold is_ascii_digit in refl)))
      (rw (IsToken-free b':' (c ∷ h) refl t, split_plain)
        (ap (λ (r : Result Error (Option ℕ)). r >>= λ port. place (c ∷ h) port)
          (parse_port-to_text raw n k))))

pub split_host_port-address :
    (raw h : Text) (p : Option ℕ)
    → contains_char b']' h ≡ false
    → ForSome (λ n. n ≤ u16_max) p
    → split_host_port (b'[' ∷ (h ++ (b']' ∷ port_text p))) raw ≡ ok (h, p)
unfolding split_host_port port_text
split_host_port-address raw h none t k = rw (split_once-append b']' h [] t)
split_host_port-address raw h (some n) t k =
    rw (split_once-append b']' h (b':' ∷ to_text n) t)
      (ap (λ r. r >>= λ port. ok (h, port)) (parse_port-to_text raw n k))

validate_user-ok : (raw : Text) (u : Option Text) → ForSome IsToken u → validate_user raw u ≡ ok tt
unfolding validate_user
validate_user-ok raw none h = refl
validate_user-ok raw (some u) h = validate_safe_token-ok u user_token raw h

split_user-print :
    (raw hp : Text) (u : Option Text)
    → ForSome IsToken u
    → IsPlace hp
    → split_user raw (user_text u ++ hp) (rsplit_once b'@' (user_text u ++ hp)) ≡ ok (u, hp)
unfolding split_user user_text
split_user-print raw hp none h p = rw (rsplit_once-none b'@' hp p.no_at)
split_user-print raw hp (some []) h p = absurd h
split_user-print raw hp (some (c ∷ u)) h p = rw (append_assoc (c ∷ u) (b'@' ∷ []) hp) (
    rw (rsplit_once-append b'@' (c ∷ u) hp p.no_at) (
      rw (
        IsToken-free b'@' (c ∷ u) (unfold is_token_char is_ascii_alphanumeric in refl) h,
        split_user,
      )))

user_text-not_empty : (u : Option Text) (hp : Text) → hp ≢ [] → is_empty (user_text u ++ hp) ≡ false
unfolding user_text
user_text-not_empty none [] h = absurd (h refl)
user_text-not_empty none (c ∷ hp) h = refl
user_text-not_empty (some []) hp h = refl
user_text-not_empty (some (c ∷ u)) hp h = refl

not_empty : (s : Text) → s ≢ [] → is_empty s ≡ false
not_empty [] h = absurd (h refl)
not_empty (c ∷ s) h = refl

-- The authority of a user and a place is read as that user and what the place holds.
pub parse_authority-print :
    (raw hp host path : Text) (u : Option Text) (port : Option ℕ) (q : Option Text)
    → ForSome IsToken u
    → IsPlace hp
    → split_host_port hp raw ≡ ok (host, port)
    → host ≢ []
    → validate_host raw (is_bracketed hp) host ≡ ok tt
    → parse_authority raw (user_text u ++ hp) path q ≡ (
        parse_instance raw path >>= λ d.
        ok (record { user = u; host = host; port = port; driver = d; query = q }))
unfolding parse_authority require
parse_authority-print raw hp host path u port q hu p s ne v =
    rw (user_text-not_empty u hp p.not_empty) (
      rw (split_user-print raw hp u hu p)
        (rw (validate_user-ok raw u hu) (rw s (rw (not_empty host ne) (rw v refl)))))

pub user_text-free :
    (c : ℕ) (u : Option Text)
    → is_token_char c ≡ false
    → (c == b'@') ≡ false
    → ForSome IsToken u
    → contains_char c (user_text u) ≡ false
unfolding user_text
user_text-free c none h k t = unfold contains_char in refl
user_text-free c (some u) h k t =
    unfold contains_char in
    ground (arith, contains_char-append c u (b'@' ∷ []), IsToken-free c u h t)

split_query-print :
    (s : Text) (q : Option Text)
    → contains_char b'?' s ≡ false
    → ForSome (λ p. p ≢ []) q
    → split_query (s ++ query_text q) (split_once b'?' (s ++ query_text q)) ≡ (s, q)
unfolding query_text split_query
split_query-print s none h k = rw (append-nil s) (rw (split_once-none b'?' s h))
split_query-print s (some []) h k = absurd (k refl)
split_query-print s (some (c ∷ q)) h k = rw (split_once-append b'?' s (c ∷ q) h)

pub instance_text-parse : (raw : Text) (d : Instance) → parse_instance raw (instance_text d) ≡ ok d
unfolding parse_instance instance_text eq text
instance_text-parse raw system = refl
instance_text-parse raw session = refl

instance_text-free : (d : Instance) → contains_char b'?' (instance_text d) ≡ false
unfolding instance_text contains_char
instance_text-free system = refl
instance_text-free session = refl

-- An authority in front of an instance and a query.
pub parse-authority :
    (auth : Text) (d : Instance) (q : Option Text)
    → contains_char b'/' auth ≡ false
    → contains_char b'?' auth ≡ false
    → ForSome (λ p. p ≢ []) q
    → let raw = text "qemu+ssh://" ++ (auth ++ (b'/' ∷ (instance_text d ++ query_text q))) in
      parse raw ≡ parse_authority raw auth (instance_text d) q
unfolding parse
parse-authority auth d q slash question k =
    rw
      (strip_prefix-append (text "qemu+ssh://")
        (auth ++ (b'/' ∷ (instance_text d ++ query_text q))))
      (rw (← append_assoc auth (b'/' ∷ instance_text d) (query_text q)) (
        rw (split_query-print (auth ++ (b'/' ∷ instance_text d)) q free k)
          (rw (split_once-append b'/' auth (instance_text d) slash) refl)))
  where
    free : contains_char b'?' (auth ++ (b'/' ∷ instance_text d)) ≡ false
    free =
        unfold contains_char in
        ground (
          arith,
          question,
          contains_char-append b'?' auth (b'/' ∷ instance_text d),
          instance_text-free d,
        )
