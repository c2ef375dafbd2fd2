-- ===== src/Provider.antt =====
-- The package `provider`: where the virtual addresses of the services come from.
pub mod Ipam
pub mod None
