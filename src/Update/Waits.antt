-- ===== src/Update/Waits.antt =====
-- The waits of the rolling update: for SSH, the apiserver, a node's bootID and readiness.
pub mod Poll
pub mod Gates
pub mod Bounds
pub mod Answers
