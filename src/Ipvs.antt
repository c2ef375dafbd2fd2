-- ===== src/Ipvs.antt =====
-- The package `ipvs`: the replicated state, the kernel's records and the synchronisation of both.
pub mod State
pub mod Structs
pub mod Sync
