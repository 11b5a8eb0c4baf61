-- ===== src/Virt/Uri.antt =====
-- rust/crates/hbird-virt/src/uri.rs: `qemu+ssh://` URIs.
pub mod Parts
pub mod RoundTrip
pub mod Brackets
pub mod Safety
use hummingbird_k8s.Base.{
  ℕ, Bool, true, false, not, ◌&&◌, ◌||◌, List, [], ◌∷◌, ◌++◌, Option, none, some, ◌==◌,
  if◌then◌else◌, all, is_empty, Result, ok, err, ◌>>=◌, ◌>>◌, ok_or,
}
use hummingbird_k8s.Text.{
  Text, text, eq, is_ascii_alphanumeric, contains_char, split_once, rsplit_once, strip_prefix,
  starts_with,
}
use hummingbird_k8s.Text.Numbers.{parse_uint, to_text, u16_max}
use hummingbird_k8s.Virt.Data.{Error, invalid_uri, invalid_port}

pub data Instance : Type 0 where
  system session : Instance

-- `Display` of an instance.
unfoldable pub instance_text : Instance → Text
unfolding text
instance_text system = text "system"
instance_text session = text "session"

-- The field `instance` of the source is `driver` here.
pub record QemuSshUri : Type 0 where
  pub user : Option Text
  pub host : Text
  pub port : Option ℕ
  pub driver : Instance
  pub query : Option Text

pub data Field : Type 0 where
  host_token user_token : Field

-- The messages of `validate_safe_token` for its two callers.
empty_reason : Field → Text
empty_reason host_token = text "host token must not be empty"
empty_reason user_token = text "user token must not be empty"

dash_reason : Field → Text
dash_reason host_token = text "host must not start with '-' (would be parsed as an SSH option)"
dash_reason user_token = text "user must not start with '-' (would be parsed as an SSH option)"

character_reason : Field → Text
character_reason host_token = text "host contains characters outside [A-Za-z0-9._-]"
character_reason user_token = text "user contains characters outside [A-Za-z0-9._-]"

unfoldable pub is_token_char : ℕ → Bool
unfolding is_ascii_alphanumeric
is_token_char c = is_ascii_alphanumeric c || c == b'.' || c == b'_' || c == b'-'

unfoldable pub validate_safe_token : Text → Field → Text → Result Error (Unit {0})
unfolding empty_reason dash_reason character_reason
validate_safe_token [] field raw = err (invalid_uri raw (empty_reason field))
validate_safe_token (c ∷ s) field raw =
    if c == b'-'
    then err (invalid_uri raw (dash_reason field))
    else if all is_token_char (c ∷ s)
    then ok tt
    else err (invalid_uri raw (character_reason field))

-- `p.parse::<u16>()`.
unfoldable pub parse_port : Text → Text → Result Error (Option ℕ)
parse_port raw p = elim (parse_uint u16_max p) [
  | none ↦ err (invalid_port raw)
  | some n ↦ ok (some n)
]

-- What follows the bracket that closes an IPv6 literal.
bracket_tail : Text → Text → Result Error (Option ℕ)
unfolding parse_port
bracket_tail raw [] = ok none
bracket_tail raw (c ∷ p) =
    if c == b':'
    then parse_port raw p
    else err (invalid_uri raw (text "garbage after IPv6 literal close bracket"))

-- The text behind `[`, split at `]`.
split_bracketed : Text → Option (Text × Text) → Result Error (Text × Option ℕ)
unfolding bracket_tail
split_bracketed raw none = err (invalid_uri raw (text "IPv6 literal missing closing bracket"))
split_bracketed raw (some (host, tail)) = bracket_tail raw tail >>= λ port. ok (host, port)

-- An authority without brackets, split at its last colon.
split_plain : Text → Text → Option (Text × Text) → Result Error (Text × Option ℕ)
unfolding parse_port
split_plain raw host_port none = ok (host_port, none)
split_plain raw host_port (some (h, p)) =
    if contains_char b':' h
    then err (invalid_uri raw (text "IPv6 literal must be bracketed when paired with a port"))
    else parse_port raw p >>= λ port. ok (h, port)

unfoldable pub is_bracketed : Text → Bool
is_bracketed [] = false
is_bracketed (c ∷ s) = c == b'['

unfoldable pub split_host_port : Text → Text → Result Error (Text × Option ℕ)
unfolding split_bracketed split_plain is_bracketed
split_host_port [] raw = split_plain raw [] none
split_host_port (c ∷ rest) raw =
    if c == b'['
    then split_bracketed raw (split_once b']' rest)
    else split_plain raw (c ∷ rest) (rsplit_once b':' (c ∷ rest))

-- An empty query is no query.
unfoldable pub split_query : Text → Option (Text × Text) → Text × Option Text
split_query after_scheme none = (after_scheme, none)
split_query after_scheme (some (lhs, [])) = (lhs, none)
split_query after_scheme (some (lhs, c ∷ q)) = (lhs, some (c ∷ q))

unfoldable pub split_path : Text → Option (Text × Text) → Text × Text
split_path auth_and_path none = (auth_and_path, [])
split_path auth_and_path (some (a, p)) = (a, p)

-- The user, and the rest behind the last `@`. An empty user is none.
unfoldable pub split_user : Text → Text → Option (Text × Text) → Result Error (Option Text × Text)
split_user raw authority none = ok (none, authority)
split_user raw authority (some ([], hp)) = ok (none, hp)
split_user raw authority (some (c ∷ u, hp)) =
    if contains_char b'@' (c ∷ u)
    then err (invalid_uri raw (text "user component must not contain '@'"))
    else ok (some (c ∷ u), hp)

unfoldable pub validate_user : Text → Option Text → Result Error (Unit {0})
unfolding validate_safe_token
validate_user raw none = ok tt
validate_user raw (some u) = validate_safe_token u user_token raw

unfoldable pub validate_host : Text → Bool → Text → Result Error (Unit {0})
unfolding validate_safe_token
validate_host raw is_ipv6 host = if is_ipv6 then ok tt else validate_safe_token host host_token raw

unfoldable pub require : Bool → Text → Text → Result Error (Unit {0})
require true raw reason = ok tt
require false raw reason = err (invalid_uri raw reason)

unfoldable pub parse_instance : Text → Text → Result Error Instance
parse_instance raw path =
    if is_empty path || eq path (text "system")
    then ok system
    else if eq path (text "session")
    then ok session
    else err
        (invalid_uri raw (text "unsupported libvirt instance path (expected /system or /session)"))

-- The authority of a URI, with the path and the query.
unfoldable pub parse_authority : Text → Text → Text → Option Text → Result Error QemuSshUri
unfolding split_user require
parse_authority raw authority path query = do
  require (not (is_empty authority)) raw (text "empty authority (host) component")
  found ← split_user raw authority (rsplit_once b'@' authority)
  validate_user raw found.0
  place ← split_host_port found.1 raw
  require (not (is_empty place.0)) raw (text "empty host")
  validate_host raw (is_bracketed found.1) place.0
  driver ← parse_instance raw path
  ok (record { user = found.0; host = place.0; port = place.1; driver = driver; query = query })

parse_after : Text → Text × Option Text → Result Error QemuSshUri
unfolding parse_authority split_path
parse_after raw (auth_and_path, query) =
    let (authority, path) = split_path auth_and_path (split_once b'/' auth_and_path) in
    parse_authority raw authority path query

-- `QemuSshUri::parse`.
unfoldable pub parse : Text → Result Error QemuSshUri
unfolding parse_after split_query
parse raw = do
  after_scheme ←
      ok_or (strip_prefix (text "qemu+ssh://") raw)
        (invalid_uri raw (text "missing 'qemu+ssh://' scheme prefix"))
  parse_after raw (split_query after_scheme (split_once b'?' after_scheme))

unfoldable pub remote_uri : QemuSshUri → Text
remote_uri u = text "qemu:///" ++ instance_text u.driver

unfoldable pub ssh_target : QemuSshUri → Text
ssh_target u = elim u.user [ none ↦ u.host | some user ↦ user ++ (b'@' ∷ u.host) ]

unfoldable pub user_text : Option Text → Text
user_text none = []
user_text (some u) = u ++ b'@' ∷ []

unfoldable pub host_text : Text → Text
host_text host = if contains_char b':' host then b'[' ∷ (host ++ b']' ∷ []) else host

unfoldable pub port_text : Option ℕ → Text
port_text none = []
port_text (some p) = b':' ∷ to_text p

unfoldable pub query_text : Option Text → Text
query_text none = []
query_text (some q) = b'?' ∷ q

-- `Display` of a URI.
unfoldable pub display : QemuSshUri → Text
unfolding user_text host_text port_text query_text
display u =
    text "qemu+ssh://"
    ++ ((user_text u.user ++ (host_text u.host ++ port_text u.port))
        ++ (b'/' ∷ (instance_text u.driver ++ query_text u.query)))
