-- ===== src/Virt/Uri/Safety.antt =====
-- `QemuSshUri::parse` and the command line of `ssh` that is built from its result.
use mathlib.Core.Path.{subst}
use hummingbird_k8s.Base.{
  ℕ, ◌≤◌, Bool, true, false, not, [], ◌∷◌, ◌++◌, ◌≡◌, ◌≢◌, ◌⊎◌, inl, inr, refl, ap, ◌∙◌, arith,
  Option, none, some, ◌==◌, Result, ok, ◌>>=◌, ok-injective, Ensures, Ensures-bind, is_empty,
  Option-cases, Bool-cases, sym, append-nil,
}
use hummingbird_k8s.Text.{
  Text, text, contains_char, split_once, rsplit_once, strip_prefix, starts_with,
}
use hummingbird_k8s.Text.Split.{PiecesFree, split_once-free, rsplit_once-free, strip_prefix-free}
use hummingbird_k8s.Text.Numbers.{u16_max, parse_uint-le}
use hummingbird_k8s.Virt.Data.{Error}
use hummingbird_k8s.Virt.Uri.{
  Instance, QemuSshUri, Field, host_token, user_token, validate_safe_token, parse_port,
  is_bracketed, split_host_port, split_bracketed, split_plain, bracket_tail, split_query,
  split_path, split_user, validate_user, validate_host, require, parse_instance, parse_authority,
  parse_after, parse, ssh_target,
}
use hummingbird_k8s.Virt.Uri.Parts.{IsToken, ForSome}

-- The user and the host are words of safe characters that do not begin with a dash, and the port
-- fits in 16 bits.
pub record IsSafe (u : QemuSshUri) : Type 0 where
  pub user : ForSome IsToken u.user
  pub host : IsToken u.host
  pub port : ForSome (λ p. p ≤ u16_max) u.port

validate_safe_token-IsToken :
    (s : Text) (f : Field) (raw : Text) → validate_safe_token s f raw ≡ ok tt → IsToken s
unfolding validate_safe_token
validate_safe_token-IsToken [] f raw h = cc
validate_safe_token-IsToken (c ∷ s) f raw h = ground arith

validate_user-IsToken :
    (raw : Text) (u : Option Text) → validate_user raw u ≡ ok tt → ForSome IsToken u
unfolding validate_user
validate_user-IsToken raw none h = tt
validate_user-IsToken raw (some u) h = validate_safe_token-IsToken u user_token raw h

validate_host-IsToken :
    (raw : Text) (b : Bool) (h : Text) → validate_host raw b h ≡ ok tt → IsToken h ⊎ (b ≡ true)
unfolding validate_host
validate_host-IsToken raw true h e = inr refl
validate_host-IsToken raw false h e = inl (validate_safe_token-IsToken h host_token raw e)

parse_port-le :
    (raw s : Text) (p : Option ℕ) → parse_port raw s ≡ ok p → ForSome (λ n. n ≤ u16_max) p
unfolding parse_port
parse_port-le raw s none h = tt
parse_port-le raw s (some n) h = parse_uint-le u16_max s n (ground arith)

abbrev pair : Text → Option ℕ → Result Error (Text × Option ℕ)
pair h port = ok (h, port)

abbrev Any : {A : Type 0} → A → Type 0
Any a = Unit

any : {A : Type 0} {m : Result Error A} → Ensures Any m
any = record { on_ok = λ a e. tt }

require-not_empty : (raw s reason : Text) → require (not (is_empty s)) raw reason ≡ ok tt → s ≢ []
unfolding require
require-not_empty raw [] reason e = cc
require-not_empty raw (c ∷ s) reason e = λ p. cc

-- The host and the port of a place whose port fits.
abbrev HasPort : Text × Option ℕ → Type 0
HasPort place = ForSome (λ n. n ≤ u16_max) place.1

parse_port-Ensures : (raw s h : Text) → Ensures HasPort (parse_port raw s >>= λ port. pair h port)
parse_port-Ensures raw s h =
    Ensures-bind (ForSome (λ n. n ≤ u16_max)) (parse_port raw s) _
      (record { on_ok = parse_port-le raw s })
      (λ p k. record { on_ok = λ a e. subst HasPort (ok-injective e) k })

split_bracketed-Ensures :
    (raw : Text) (o : Option (Text × Text)) → Ensures HasPort (split_bracketed raw o)
unfolding split_bracketed bracket_tail
split_bracketed-Ensures raw none = record { on_ok = λ a e. cc }
split_bracketed-Ensures raw (some (h, [])) = record {
  on_ok = λ a e. subst HasPort (ok-injective e) tt;
}
split_bracketed-Ensures raw (some (h, c ∷ p)) = elim (Bool-cases (c == b':')) [
  | inl e ↦ rw e (parse_port-Ensures raw p h)
  | inr e ↦ rw e (record { on_ok = λ a k. cc })
]

split_plain-Ensures :
    (raw hp : Text) (o : Option (Text × Text)) → Ensures HasPort (split_plain raw hp o)
unfolding split_plain
split_plain-Ensures raw hp none = record { on_ok = λ a e. subst HasPort (ok-injective e) tt }
split_plain-Ensures raw hp (some (h, p)) = elim (Bool-cases (contains_char b':' h)) [
  | inl e ↦ rw e (record { on_ok = λ a k. cc })
  | inr e ↦ rw e (parse_port-Ensures raw p h)
]

split_host_port-Ensures : (hp raw : Text) → Ensures HasPort (split_host_port hp raw)
unfolding split_host_port
split_host_port-Ensures [] raw = split_plain-Ensures raw [] none
split_host_port-Ensures (c ∷ s) raw = elim (Bool-cases (c == b'[')) [
  | inl e ↦ rw e (split_bracketed-Ensures raw (split_once b']' s))
  | inr e ↦ rw e (split_plain-Ensures raw (c ∷ s) (rsplit_once b':' (c ∷ s)))
]

abbrev NoBracket : Option Text × Text → Type 0
NoBracket found = contains_char b'[' found.1 ≡ false

split_user-NoBracket :
    (raw authority : Text) (o : Option (Text × Text))
    → contains_char b'[' authority ≡ false
    → PiecesFree b'[' o
    → Ensures NoBracket (split_user raw authority o)
unfolding split_user
split_user-NoBracket raw authority none h k = record {
  on_ok = λ a e. subst NoBracket (ok-injective e) h;
}
split_user-NoBracket raw authority (some ([], hp)) h k = record {
  on_ok = λ a e. subst NoBracket (ok-injective e) k.1;
}
split_user-NoBracket raw authority (some (c ∷ u, hp)) h k =
    elim (Bool-cases (contains_char b'@' (c ∷ u))) [
      | inl e ↦ rw e (record { on_ok = λ a l. cc })
      | inr e ↦ rw e (record { on_ok = λ a l. subst NoBracket (ok-injective l) k.1 })
    ]

-- Without a bracket the host is checked.
validate_host-IsToken_plain :
    (raw hp h : Text)
    → contains_char b'[' hp ≡ false
    → validate_host raw (is_bracketed hp) h ≡ ok tt
    → IsToken h
unfolding validate_host is_bracketed contains_char
validate_host-IsToken_plain raw [] h k e = validate_safe_token-IsToken h host_token raw e
validate_host-IsToken_plain raw (c ∷ s) h k e = elim (Bool-cases (c == b'[')) [
  | inl l ↦ ground arith
  | inr l ↦ validate_safe_token-IsToken h host_token raw (ground arith)
]

parse_authority-IsSafe :
    (raw authority path : Text) (q : Option Text)
    → contains_char b'[' authority ≡ false
    → Ensures IsSafe (parse_authority raw authority path q)
unfolding parse_authority
parse_authority-IsSafe raw authority path q free =
    Ensures-bind {A = Unit {0}} Any
      (require (not (is_empty authority)) raw (text "empty authority (host) component")) _ any
      λ _ _.
        Ensures-bind NoBracket (split_user raw authority (rsplit_once b'@' authority)) _
          (split_user-NoBracket raw authority (rsplit_once b'@' authority) free
            (rsplit_once-free b'[' b'@' authority free))
          λ found plain.
            Ensures-bind (λ _. ForSome IsToken found.0) (validate_user raw found.0) _
              (record { on_ok = λ _. validate_user-IsToken raw found.0 })
              λ _ user.
                Ensures-bind HasPort (split_host_port found.1 raw) _
                  (split_host_port-Ensures found.1 raw)
                  λ place port.
                    Ensures-bind {A = Unit {0}} Any
                      (require (not (is_empty place.0)) raw (text "empty host")) _ any
                      λ _ _.
                        Ensures-bind (λ _. IsToken place.0)
                          (validate_host raw (is_bracketed found.1) place.0) _
                          (record {
                            on_ok = λ _. validate_host-IsToken_plain raw found.1 place.0 plain;
                          })
                          λ _ host.
                            Ensures-bind {A = Instance} Any (parse_instance raw path) _ any λ d _.
                              record {
                                on_ok = λ u e.
                                    subst IsSafe
                                      {x = record {
                                        user = found.0;
                                        host = place.0;
                                        port = place.1;
                                        driver = d;
                                        query = q;
                                      }}
                                      (ok-injective e)
                                      (record { user = user; host = host; port = port });
                              }

-- A character of the authority is one of the text it was cut from.
split_path-free :
    (b : ℕ) (s : Text) (o : Option (Text × Text))
    → contains_char b s ≡ false
    → PiecesFree b o
    → contains_char b (split_path s o).0 ≡ false
unfolding split_path
split_path-free b s none h k = h
split_path-free b s (some (l, r)) h k = k.0

split_query-free :
    (b : ℕ) (s : Text) (o : Option (Text × Text))
    → contains_char b s ≡ false
    → PiecesFree b o
    → contains_char b (split_query s o).0 ≡ false
unfolding split_query
split_query-free b s none h k = h
split_query-free b s (some (l, [])) h k = k.0
split_query-free b s (some (l, c ∷ r)) h k = k.0

parse_after-IsSafe :
    (raw : Text) (p : Text × Option Text)
    → contains_char b'[' p.0 ≡ false
    → Ensures IsSafe (parse_after raw p)
unfolding parse_after
parse_after-IsSafe raw (s, q) h =
    parse_authority-IsSafe raw _ _ q
      (split_path-free b'[' s (split_once b'/' s) h (split_once-free b'[' b'/' s h))

parse-Ensures : (raw : Text) → contains_char b'[' raw ≡ false → Ensures IsSafe (parse raw)
unfolding parse
parse-Ensures raw h = elim (Option-cases (strip_prefix (text "qemu+ssh://") raw)) [
  | inl e ↦ rw e (record { on_ok = λ a k. cc })
  | inr (s, e) ↦ rw e (
      parse_after-IsSafe raw _ (
        split_query-free b'[' s (split_once b'?' s)
          (strip_prefix-free b'[' (text "qemu+ssh://") raw s e h)
          (split_once-free b'[' b'?' s (strip_prefix-free b'[' (text "qemu+ssh://") raw s e h))))
]

IsToken-not_option : (s t : Text) → IsToken s → starts_with (text "-") (s ++ t) ≡ false
unfolding starts_with text
IsToken-not_option [] t h = absurd h
IsToken-not_option (c ∷ s) t h = ground arith

IsSafe-not_option : (u : QemuSshUri) → IsSafe u → starts_with (text "-") (ssh_target u) ≡ false
unfolding ssh_target
IsSafe-not_option u h = go u.user u.host h.user h.host
  where
    go :
        (user : Option Text) (host : Text)
        → ForSome IsToken user
        → IsToken host
        → starts_with (text "-") (elim user [ none ↦ host | some n ↦ n ++ (b'@' ∷ host) ]) ≡ false
    go none host k l =
        ap (starts_with (text "-")) (sym (append-nil host)) ∙ IsToken-not_option host [] l
    go (some n) host k l = IsToken-not_option n (b'@' ∷ host) k

-- A URI without a bracket that is accepted has a user and a host of safe characters that do not
-- begin with a dash and a port of 16 bits, and the target that is handed to `ssh` is not an option.
pub parse-IsSafe :
    (raw : Text) (u : QemuSshUri)
    → contains_char b'[' raw ≡ false
    → parse raw ≡ ok u
    → IsSafe u × (starts_with (text "-") (ssh_target u) ≡ false)
parse-IsSafe raw u h e =
    let safe = (parse-Ensures raw h).on_ok u e in (safe, IsSafe-not_option u safe)
