-- ===== src/Ssh.antt =====
-- rust/crates/hbird-ssh: the options of an `ssh` call and the errors of a remote command.
pub mod Options
pub mod Errors
