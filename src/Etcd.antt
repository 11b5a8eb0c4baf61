-- ===== src/Etcd.antt =====
-- rust/crates/hbird-cli/src/commands/etcd.rs: maintenance of the cluster's etcd.
pub mod Keys
pub mod Names
pub mod Site
pub mod Rotation
