-- ===== src/Update/Node.antt =====
-- `InFlight`, `update_worker` and `update_cp`: the update of one node.
pub mod InFlight
pub mod Worker
pub mod ControlPlane
pub mod Triples
pub mod Hints
pub mod Quiet
