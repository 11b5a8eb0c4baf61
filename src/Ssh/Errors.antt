-- ===== src/Ssh/Errors.antt =====
-- rust/crates/hbird-ssh/src/error.rs and the `RunOutput` of lib.rs.
use hummingbird_k8s.Base.{ℕ, Option}
use hummingbird_k8s.Text.{Text}

-- The kind of a failed start and the operating system's errors are left out.
pub data Error : Type 0 where
  spawn : Text → Text → Error
  wait : Text → Error
  stdin_write : Text → Error
  non_zero_exit : Text → Option ℕ → Text → Text → Error
  identity_file_missing : Text → Error
  timeout : Text → ℕ → Error

pub record RunOutput : Type 0 where
  pub stdout : Text
  pub stderr : Text
