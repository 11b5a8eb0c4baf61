-- ===== src/Deploy.antt =====
-- rust/crates/hbird-cli/src/commands/deploy_cluster.rs: the identities of the nodes' network cards,
-- checked before a cluster is deployed.
pub mod Plan
pub mod Distinct
pub mod Sha256
pub mod Macs
pub mod Cidr
pub mod Network
pub mod Cards
pub mod Host
