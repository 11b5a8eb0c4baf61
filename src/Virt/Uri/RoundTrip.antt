-- ===== src/Virt/Uri/RoundTrip.antt =====
-- Parsing what `Display` writes.
use hummingbird_k8s.Base.{
  ℕ, ◌≤◌, true, false, [], ◌∷◌, ◌++◌, ◌≡◌, ◌≢◌, ◌⊎◌, inl, inr, refl, ◌∙◌, arith, Option, ◌==◌, ok,
  append_assoc,
}
use hummingbird_k8s.Text.{Text, text, contains_char, is_ascii_alphanumeric}
use hummingbird_k8s.Text.Split.{contains_char-append}
use hummingbird_k8s.Text.Numbers.{u16_max}
use hummingbird_k8s.Virt.Uri.{
  QemuSshUri, host_token, is_token_char, is_bracketed, split_host_port, validate_host, parse,
  user_text, host_text, port_text, query_text, instance_text, display,
}
use hummingbird_k8s.Virt.Uri.Parts.{
  IsToken, IsToken-free, IsToken-not_bracket, IsAddress, ForSome, IsRegular, IsPlace, port-free,
  validate_safe_token-ok, split_host_port-token, split_host_port-address, user_text-free,
  parse_authority-print, parse-authority, instance_text-parse,
}

-- What `parse` needs of a host and a port as they are written.
pub record Reads (h : Text) (p : Option ℕ) (hp : Text) : Type 0 where
  pub place : IsPlace hp
  pub split : (raw : Text) → split_host_port hp raw ≡ ok (h, p)
  pub not_empty : h ≢ []
  pub valid : (raw : Text) → validate_host raw (is_bracketed hp) h ≡ ok tt

token-Reads :
    (h : Text) (p : Option ℕ)
    → IsToken h
    → ForSome (λ n. n ≤ u16_max) p
    → Reads h p (h ++ port_text p)
unfolding is_bracketed validate_host is_token_char is_ascii_alphanumeric
token-Reads [] p t k = absurd t
token-Reads (c ∷ h) p t k = record {
  place = record {
    no_at = free b'@' refl refl;
    no_slash = free b'/' refl refl;
    no_question = free b'?' refl refl;
    not_empty = λ e. cc;
  };
  split = λ raw. split_host_port-token raw (c ∷ h) p t k;
  not_empty = λ e. cc;
  valid = λ raw. rw (IsToken-not_bracket c h t) (validate_safe_token-ok (c ∷ h) host_token raw t);
}
  where
    free :
        (d : ℕ)
        → is_token_char d ≡ false
        → (d == b':') ≡ false
        → contains_char d ((c ∷ h) ++ port_text p) ≡ false
    free d n m =
        rw (contains_char-append d (c ∷ h) (port_text p), IsToken-free d (c ∷ h) n t)
          (port-free d p n m)

-- An address in brackets: the parser asks only that nothing inside ends the authority.
pub bracketed-Reads :
    (h : Text) (p : Option ℕ)
    → h ≢ []
    → contains_char b']' h ≡ false
    → contains_char b'@' h ≡ false
    → contains_char b'/' h ≡ false
    → contains_char b'?' h ≡ false
    → ForSome (λ n. n ≤ u16_max) p
    → Reads h p (b'[' ∷ (h ++ (b']' ∷ port_text p)))
unfolding is_bracketed validate_host is_token_char is_ascii_alphanumeric
bracketed-Reads h p ne close at slash question k = record {
  place = record {
    no_at = free b'@' at refl refl refl refl;
    no_slash = free b'/' slash refl refl refl refl;
    no_question = free b'?' question refl refl refl refl;
    not_empty = λ e. cc;
  };
  split = λ raw. split_host_port-address raw h p close k;
  not_empty = ne;
  valid = λ raw. refl;
}
  where
    free :
        (d : ℕ)
        → contains_char d h ≡ false
        → (b'[' == d) ≡ false
        → (b']' == d) ≡ false
        → is_token_char d ≡ false
        → (d == b':') ≡ false
        → contains_char d (b'[' ∷ (h ++ (b']' ∷ port_text p))) ≡ false
    free d f a b n m =
        unfold contains_char in
        ground (arith, f, contains_char-append d h (b']' ∷ port_text p), port-free d p n m)

host-Reads :
    (h : Text) (p : Option ℕ)
    → IsToken h ⊎ IsAddress h
    → ForSome (λ n. n ≤ u16_max) p
    → Reads h p (host_text h ++ port_text p)
unfolding host_text
host-Reads h p (inl t) k = rw (IsToken-free b':' h colon t) (token-Reads h p t k)
  where
    colon : is_token_char b':' ≡ false
    colon = unfold is_token_char is_ascii_alphanumeric in refl
host-Reads h p (inr (colon, close, at, slash, question)) k = rw colon (
    rw (append_assoc h (b']' ∷ []) (port_text p))
      (bracketed-Reads h p (λ e. colon-ne h colon e) close at slash question k))
  where
    colon-ne : (s : Text) → contains_char b':' s ≡ true → s ≢ []
    colon-ne [] c e = unfold contains_char in cc
    colon-ne (d ∷ s) c e = cc

-- The URI of a user, a place and the rest is read back.
pub parse-Reads :
    (u : QemuSshUri) (hp : Text)
    → ForSome IsToken u.user
    → Reads u.host u.port hp
    → ForSome (λ q. q ≢ []) u.query
    → parse (
        text "qemu+ssh://"
        ++ ((user_text u.user ++ hp) ++ (b'/' ∷ (instance_text u.driver ++ query_text u.query))))
      ≡ ok u
unfolding is_token_char is_ascii_alphanumeric
parse-Reads u hp hu r hq =
    let auth = user_text u.user ++ hp in
    let raw =
      text "qemu+ssh://" ++ (auth ++ (b'/' ∷ (instance_text u.driver ++ query_text u.query))) in
    parse-authority auth u.driver u.query (free b'/' refl refl r.place.no_slash)
      (free b'?' refl refl r.place.no_question) hq
    ∙ parse_authority-print raw hp u.host (instance_text u.driver) u.user u.port u.query hu r.place
        (r.split raw) r.not_empty (r.valid raw)
    ∙ rw (instance_text-parse raw u.driver)
  where
    free :
        (c : ℕ)
        → (is_token_char c ≡ false)
        → (c == b'@') ≡ false
        → contains_char c hp ≡ false
        → contains_char c (user_text u.user ++ hp) ≡ false
    free c n m h =
        rw (contains_char-append c (user_text u.user) hp, user_text-free c u.user n m hu) h

-- A regular URI is read back from its `Display`: a user that is a token or none, a host that is a
-- token or an address with a colon and without `]`, `@`, `/` and `?`, a port within 16 bits or
-- none, and a query that is not empty or none.
pub parse-display : (u : QemuSshUri) → IsRegular u → parse (display u) ≡ ok u
unfolding display
parse-display u r =
    parse-Reads u (host_text u.host ++ port_text u.port) r.user
      (host-Reads u.host u.port r.host r.port) r.query
