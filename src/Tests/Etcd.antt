-- ===== src/Tests/Etcd.antt =====
-- The theorems on the maintenance of etcd, at a small configuration.
use hummingbird_k8s.Base.{◌≡◌, refl, [], ◌∷◌, ok, some, true, false, ◌/◌, ◌%◌, ◌+◌, is_empty}
use hummingbird_k8s.Text
use hummingbird_k8s.Text.{Text, text, lines, trim, contains_char}
use hummingbird_k8s.Text.Split.{IsLine}
use hummingbird_k8s.Ssh.Errors.{RunOutput}
use hummingbird_k8s.Etcd.Keys
use hummingbird_k8s.Etcd.Keys.{KeysBlock, find_aesgcm_keys_block, ends_with_newline}
use hummingbird_k8s.Etcd.Keys.Whole.{RotatesText, rotate-RotatesText}
use hummingbird_k8s.Etcd.Names
use hummingbird_k8s.Etcd.Names.{civil_from_epoch, sanitize_label}
use hummingbird_k8s.Etcd.Names.Dates.{days_of, seconds_of, days_of-civil_from_epoch}
use hummingbird_k8s.Etcd.Names.Labels.{IsLabel, sanitize_label-IsLabel}
use hummingbird_k8s.Etcd.Site.{Site, History, Event}
use hummingbird_k8s.Etcd.Rotation.{run_rotate_key}
use hummingbird_k8s.Etcd.Rotation.Diagram.{PathOf, verified}
use hummingbird_k8s.Etcd.Rotation.Paths.{EndsAt}
use hummingbird_k8s.Etcd.Rotation.Refines.{run_rotate_key-EndsAt}
use hummingbird_k8s.Etcd.Rotation.Completes.{run_rotate_key-completes}

abbrev config : Text
config =
    text
      "providers:\n  - aesgcm:\n      keys:\n        - name: old\n          secret: b2xk\n  - identity: {}\n"

abbrev block : KeysBlock
block = record { keys_line = 2; entry_indent = 8; entries = 3 ∷ []; end = 5 }

config-found : find_aesgcm_keys_block (lines config) ≡ ok block
unfolding find_aesgcm_keys_block text lines Keys.position Keys.is_aesgcm Text.starts_with
    Keys.without_dash Text.strip_prefix Text.trim_start Text.is_whitespace Keys.find_keys_line
    Keys.is_blank trim Keys.indent_of Text.len Keys.is_keys Text.eq Keys.block_at Keys.to_block
    Keys.scan Keys.is_entry Keys.push Text.trim_end Text.trim_end_by
config-found = refl

config-newline : ends_with_newline config ≡ true
unfolding ends_with_newline text
config-newline = refl

config-no_cr : contains_char b'\r' config ≡ false
unfolding contains_char text
config-no_cr = refl

name-IsLine : IsLine (text "new")
unfolding contains_char text
name-IsLine = (refl, refl)

rotate-RotatesText_example : RotatesText (text "new") (text "new") config block
rotate-RotatesText_example =
    rotate-RotatesText (text "new") (text "new") config block name-IsLine name-IsLine config-newline
      config-no_cr config-found

abbrev reply : History → Event → RunOutput
reply h e = record { stdout = config; stderr = [] }

abbrev site : Site
site = record {
  respond = λ h e. ok (reply h e);
  is_terminal = true;
  answer = λ h prompt. some (text "y");
  random_key_bytes = some (1 ∷ 2 ∷ 3 ∷ []);
  now_epoch_secs = 1767225600;
}

run_rotate_key-EndsAt_example : EndsAt site (λ _. verified) (run_rotate_key false site [])
run_rotate_key-EndsAt_example = run_rotate_key-EndsAt site false

config-filled : is_empty (trim config) ≡ false
unfolding trim text Text.is_whitespace
config-filled = refl

run_rotate_key-completes_example :
    ((run_rotate_key true site []).0 ≡ ok tt) × PathOf site (run_rotate_key true site []).1 verified
run_rotate_key-completes_example =
    run_rotate_key-completes site reply (1 ∷ 2 ∷ 3 ∷ []) block (λ h e. refl) refl config-filled
      config-newline config-no_cr config-found

days_of-civil_from_epoch_example :
    (days_of (civil_from_epoch 1767225600) ≡ 1767225600 / 86400 + 719468)
    × (seconds_of (civil_from_epoch 1767225600) ≡ 1767225600 % 86400)
days_of-civil_from_epoch_example = days_of-civil_from_epoch 1767225600

label-accepted : sanitize_label (text "-pre rotation-") ≡ some (text "pre-rotation")
unfolding sanitize_label text Names.trim_dashes Text.trim_end_matches Names.trim_start_dashes
    Names.map_label Names.is_label_char Text.is_ascii_alphanumeric
label-accepted = refl

sanitize_label-IsLabel_example :
    IsLabel (text "pre-rotation")
    × (sanitize_label (text "pre-rotation") ≡ some (text "pre-rotation"))
sanitize_label-IsLabel_example =
    sanitize_label-IsLabel (text "-pre rotation-") (text "pre-rotation") label-accepted
