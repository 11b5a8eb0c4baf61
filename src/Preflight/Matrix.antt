-- ===== src/Preflight/Matrix.antt =====
-- The table of rust/crates/hbird-cli/src/commands/preflight.rs.
use hummingbird_k8s.Base.{List, [], ◌∷◌, Option, none, some, if◌then◌else◌}
use hummingbird_k8s.Text.{Text, text, eq}

pub record MatrixRow : Type 0 where
  pub cilium_minor : Text
  pub k8s_minors : List Text
  pub source_url : Text

abbrev pub compat_matrix : List MatrixRow
compat_matrix =
    record {
      cilium_minor = text "1.14";
      k8s_minors =
          text "1.19"
          ∷ text "1.20"
          ∷ text "1.21"
          ∷ text "1.22"
          ∷ text "1.23"
          ∷ text "1.24"
          ∷ text "1.25"
          ∷ text "1.26"
          ∷ text "1.27"
          ∷ [];
      source_url = text "https://docs.cilium.io/en/v1.14/network/kubernetes/compatibility/";
    }
    ∷ record {
      cilium_minor = text "1.15";
      k8s_minors = text "1.26" ∷ text "1.27" ∷ text "1.28" ∷ text "1.29" ∷ [];
      source_url = text "https://docs.cilium.io/en/v1.15/network/kubernetes/compatibility/";
    }
    ∷ record {
      cilium_minor = text "1.16";
      k8s_minors = text "1.27" ∷ text "1.28" ∷ text "1.29" ∷ text "1.30" ∷ [];
      source_url = text "https://docs.cilium.io/en/v1.16/network/kubernetes/compatibility/";
    }
    ∷ record {
      cilium_minor = text "1.17";
      k8s_minors = text "1.29" ∷ text "1.30" ∷ text "1.31" ∷ text "1.32" ∷ [];
      source_url = text "https://docs.cilium.io/en/v1.17/network/kubernetes/compatibility/";
    }
    ∷ record {
      cilium_minor = text "1.18";
      k8s_minors = text "1.30" ∷ text "1.31" ∷ text "1.32" ∷ text "1.33" ∷ [];
      source_url = text "https://docs.cilium.io/en/v1.18/network/kubernetes/compatibility/";
    }
    ∷ []

unfoldable pub find_row : Text → List MatrixRow → Option MatrixRow
find_row minor [] = none
find_row minor (row ∷ rows) =
    let rest = find_row minor rows in if eq row.cilium_minor minor then some row else rest

unfoldable pub lookup_row : Text → Option MatrixRow
lookup_row minor = find_row minor compat_matrix
