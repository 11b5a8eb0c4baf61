-- ===== src/Virt/Data.antt =====
-- rust/crates/hbird-virt/src/error.rs and ssh.rs: the errors. What `InvalidPort` says of the
-- number's fault is left out.
use hummingbird_k8s.Base.{ℕ, Option}
use hummingbird_k8s.Text.{Text}

pub data SshError : Type 0 where
  transport : Text → Text → SshError
  -- host, command, exit code unless killed by a signal, standard error
  remote_exit : Text → Text → Option ℕ → Text → SshError

pub data Error : Type 0 where
  invalid_uri : Text → Text → Error
  invalid_port : Text → Error
  ssh : SshError → Error
  virsh_failed : Text → Text → Error
  unparseable_output : Text → Text → Error
