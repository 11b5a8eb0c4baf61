-- ===== src/Tests/Virt.antt =====
-- The theorems on URIs and on the quoting of commands, at concrete values.
use hummingbird_k8s.Base.{◌≡◌, refl, [], ◌∷◌, ◌++◌, ok, none, some, true, false, arith, inr}
use hummingbird_k8s.Text
use hummingbird_k8s.Text.Numbers
use hummingbird_k8s.Text.{text, eq, contains_char, starts_with}
use hummingbird_k8s.Virt.Guard.{
  Refuses, slashes, is_banned, has_parent, reject_destructive_path, reject_destructive_path-banned,
  reject_destructive_path-doubled,
}
use hummingbird_k8s.Virt.Uri
use hummingbird_k8s.Virt.Uri.{QemuSshUri, system, session, parse, display, ssh_target}
use hummingbird_k8s.Virt.Uri.Parts.{IsRegular}
use hummingbird_k8s.Virt.Uri.RoundTrip.{parse-display}
use hummingbird_k8s.Virt.Uri.Brackets.{bracketed, parse_brackets}
use hummingbird_k8s.Virt.Uri.Safety.{IsSafe, parse-IsSafe}
use hummingbird_k8s.Virt.Shell.{shell_quote}
use hummingbird_k8s.Virt.Shell.Words.{shell_words, word_then, shell_words-shell_quote}

etc-is_banned : is_banned (b'/' ∷ text "etc") ≡ true
unfolding is_banned text eq Text.trim_end_matches
etc-is_banned = refl

reject_destructive_path-banned_example :
    Refuses (reject_destructive_path ((b'/' ∷ text "etc") ++ slashes 2))
reject_destructive_path-banned_example =
    reject_destructive_path-banned b'/' (text "etc") 2 etc-is_banned

etc-no_parent : has_parent (b'/' ∷ b'/' ∷ (text "et" ++ b'c' ∷ [])) ≡ false
unfolding has_parent text eq Text.split
etc-no_parent = refl

reject_destructive_path-doubled_example :
    reject_destructive_path (b'/' ∷ b'/' ∷ (text "et" ++ b'c' ∷ [])) ≡ ok tt
reject_destructive_path-doubled_example =
    reject_destructive_path-doubled (text "et") b'c' refl etc-no_parent

abbrev v6 : QemuSshUri
v6 = record {
  user = some (text "core");
  host = text "fe80::1";
  port = some 2222;
  driver = session;
  query = some (text "no_tty=1");
}

v6-IsRegular : IsRegular v6
unfolding text contains_char Uri.is_token_char Text.is_ascii_alphanumeric Text.is_ascii_alphabetic
v6-IsRegular = record {
  user = (refl, refl);
  host = inr (refl, refl, refl, refl, refl);
  port = ground arith;
  query = λ p. cc;
}

parse-display_example : parse (display v6) ≡ ok v6
parse-display_example = parse-display v6 v6-IsRegular

parse_brackets_example :
    (parse (text "qemu+ssh://[" ++ (text "-oProxyCommand=id" ++ text "]/system"))
      ≡ ok (bracketed (text "-oProxyCommand=id")))
    × (ssh_target (bracketed (text "-oProxyCommand=id")) ≡ text "-oProxyCommand=id")
unfolding text contains_char
parse_brackets_example = parse_brackets (text "-oProxyCommand=id") (λ p. cc) refl refl refl refl

abbrev plain : QemuSshUri
plain = record {
  user = some (text "root");
  host = text "kvm-1.lan";
  port = some 22;
  driver = system;
  query = none;
}

plain-parse : parse (text "qemu+ssh://root@kvm-1.lan:22/system") ≡ ok plain
unfolding parse text Text.strip_prefix Text.split_once Text.rsplit_once contains_char
    Uri.validate_user Uri.is_token_char Uri.split_host_port Numbers.parse_uint Uri.validate_host
    Uri.parse_instance Text.eq
plain-parse = refl

no_bracket : contains_char b'[' (text "qemu+ssh://root@kvm-1.lan:22/system") ≡ false
unfolding text contains_char
no_bracket = refl

parse-IsSafe_example : IsSafe plain × (starts_with (text "-") (ssh_target plain) ≡ false)
parse-IsSafe_example =
    parse-IsSafe (text "qemu+ssh://root@kvm-1.lan:22/system") plain no_bracket plain-parse

shell_words-shell_quote_example :
    (shell_words (shell_quote (text "it's; rm")) ≡ some (text "it's; rm" ∷ []))
    × (shell_words (shell_quote (text "it's; rm") ++ b' ' ∷ text "x")
        ≡ word_then (text "it's; rm") (shell_words (text "x")))
shell_words-shell_quote_example = shell_words-shell_quote (text "it's; rm") (text "x")
