-- ===== src/Virt.antt =====
-- rust/crates/hbird-virt: libvirt over SSH.
pub mod Data
pub mod Uri
pub mod Shell
pub mod Guard
pub mod Remote
pub mod Ipv4
pub mod Output
pub mod Connection
