-- ===== src/Update.antt =====
-- rust/crates/hbird-cli/src/commands/update_cluster.rs: the rolling update of a cluster.
pub mod Plan
pub mod Net
pub mod Kubectl
pub mod Waits
pub mod Bootc
pub mod Node
pub mod Run
pub mod Guards
pub mod Env
pub mod FromArgs
