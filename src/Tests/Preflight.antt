-- ===== src/Tests/Preflight.antt =====
-- The check of the pins of Cilium and Kubernetes.
use hummingbird_k8s.Base.{◌≡◌, refl, [], ◌∷◌, some}
use hummingbird_k8s.Text
use hummingbird_k8s.Text.Numbers
use hummingbird_k8s.Text.{text}
use hummingbird_k8s.Preflight.Matrix.{lookup_row}
use hummingbird_k8s.Preflight.Versions
use hummingbird_k8s.Preflight.Versions.{
  normalize_k8s_minor, extract_cilium_pin, extract_k8s_pin, lowest_supported_minor,
}
use hummingbird_k8s.Preflight.{Pins, join_path, ends_with_slash, classify}
use hummingbird_k8s.Preflight.Window.{Tells, classify-Tells}

normalized : normalize_k8s_minor (text "v1.31.4") ≡ text "1.31"
unfolding text normalize_k8s_minor Versions.or_raw Versions.leading_dotted_number
    Versions.components_from Versions.component_start Versions.span_digits Versions.without
    Text.strip_prefix Text.is_ascii_digit Versions.with_separator
normalized = refl

cilium-pin :
    extract_cilium_pin (text "cilium install\n  --version=v1.17.16 \\\n") ≡ some (text "1.17.16")
unfolding extract_cilium_pin Versions.cilium_value Text.trim_start Text.is_whitespace
    Versions.first_value Text.lines text Text.strip_prefix Versions.separated Text.len
    Versions.skip_blanks Versions.leading_dotted_number Versions.components_from
    Versions.component_start Versions.span_digits Versions.without Text.is_ascii_digit
    Versions.with_separator
cilium-pin = refl

k8s-pin : extract_k8s_pin (text "FROM x\nARG K8S_VERSION = 1.31.2\n") ≡ some (text "1.31")
unfolding extract_k8s_pin Versions.k8s_value Versions.assigned_value Versions.first_value Text.lines
    text Text.strip_prefix Versions.separated Text.len Versions.skip_blanks
    Versions.leading_dotted_number Versions.components_from Versions.component_start
    Versions.span_digits Versions.without Text.is_ascii_digit Versions.with_separator
k8s-pin = refl

lowest-pin : lowest_supported_minor (text "1.10" ∷ text "1.9" ∷ []) ≡ some (text "1.9")
unfolding lowest_supported_minor text Versions.least Versions.precedes Versions.parse_minor_pair
    Text.split Versions.without Text.strip_prefix Numbers.parse_uint
lowest-pin = refl

joined : join_path (text "/repo/") (text "a") ≡ join_path (text "/repo") (text "a")
unfolding join_path text ends_with_slash
joined = refl

abbrev pins : Pins
pins = record {
  cilium_version = text "1.17.16";
  cilium_minor = text "1.17";
  k8s_minor = text "1.28";
  cilium_source = text "--cilium";
  k8s_source = text "--k8s";
}

classify-Tells_example : Tells pins (lookup_row pins.cilium_minor) (classify pins)
classify-Tells_example = classify-Tells pins
