-- ===== src/Tests.antt =====
-- Runs of the program's functions, and the theorems at concrete inputs.
mod Config
mod Virt
mod Update
mod Connection
mod Etcd
mod FromArgs
mod Deploy
mod Preflight
