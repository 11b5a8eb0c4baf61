-- ===== src/Ssh/Options.antt =====
-- rust/crates/hbird-ssh/src/options.rs.
use hummingbird_k8s.Base.{ℕ, Bool, true, false, Option, none, some}
use hummingbird_k8s.Text.{Text}

-- Durations are in seconds.
pub record SshOptions : Type 0 where
  pub host : Text
  pub user : Option Text
  pub port : Option ℕ
  pub identity_file : Option Text
  pub proxy_jump : Option Text
  pub connect_timeout : ℕ
  pub strict_host_key_checking : Bool
  pub batch_mode : Bool
  pub control_master : Bool
  pub include_identity_flag : Bool
  pub command_timeout : Option ℕ

-- `SshOptions::new`.
unfoldable pub new : Text → SshOptions
new host = record {
  host = host;
  user = none;
  port = none;
  identity_file = none;
  proxy_jump = none;
  connect_timeout = 10;
  strict_host_key_checking = false;
  batch_mode = true;
  control_master = false;
  include_identity_flag = true;
  command_timeout = none;
}

unfoldable pub with_user : SshOptions → Text → SshOptions
with_user o u = record o { user = some u }

unfoldable pub with_proxy_jump : SshOptions → Text → SshOptions
with_proxy_jump o h = record o { proxy_jump = some h }

unfoldable pub with_connect_timeout : SshOptions → ℕ → SshOptions
with_connect_timeout o t = record o { connect_timeout = t }

unfoldable pub with_command_timeout : SshOptions → ℕ → SshOptions
with_command_timeout o t = record o { command_timeout = some t }
