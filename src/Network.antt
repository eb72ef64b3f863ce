-- ===== src/Network.antt =====
-- src/network.c: addresses, names and interfaces.
pub mod Interface
pub mod Inet6
pub mod Resolve
