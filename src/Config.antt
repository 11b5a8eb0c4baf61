-- ===== src/Config.antt =====
-- rust/crates/hbird-config: the parser of `cluster.local.conf`.
pub mod Data
pub mod Tokenizer
pub mod Build
