-- ===== src/Virt/Uri/Brackets.antt =====
-- Hosts in brackets in rust/crates/hbird-virt/src/uri.rs.
use hummingbird_k8s.Base.{
  false, [], ◌∷◌, ◌++◌, ◌≡◌, ◌≢◌, refl, none, ok, append_assoc, ap, sym, ◌∙◌,
}
use hummingbird_k8s.Text.{Text, text, contains_char}
use hummingbird_k8s.Virt.Uri.{
  QemuSshUri, system, parse, ssh_target, user_text, port_text, instance_text, query_text,
}
use hummingbird_k8s.Virt.Uri.RoundTrip.{bracketed-Reads, parse-Reads}

abbrev pub bracketed : Text → QemuSshUri
bracketed h = record { user = none; host = h; port = none; driver = system; query = none }

-- Any text in brackets that is not empty and holds none of `]`, `@`, `/` and `?` is accepted as
-- the host, a text that begins with `-` included, and is the target that is handed to `ssh`.
pub parse_brackets :
    (h : Text)
    → h ≢ []
    → contains_char b']' h ≡ false
    → contains_char b'@' h ≡ false
    → contains_char b'/' h ≡ false
    → contains_char b'?' h ≡ false
    → (parse (text "qemu+ssh://[" ++ (h ++ text "]/system")) ≡ ok (bracketed h))
      × (ssh_target (bracketed h) ≡ h)
unfolding text user_text port_text instance_text query_text ssh_target
parse_brackets h ne close at slash question = (
  ap (λ s. parse (text "qemu+ssh://[" ++ s)) (sym (append_assoc h (b']' ∷ []) (text "/system")))
      ∙ parse-Reads (bracketed h) (b'[' ∷ (h ++ b']' ∷ [])) tt
          (bracketed-Reads h none ne close at slash question tt) tt,
  refl,
)
