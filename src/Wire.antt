-- ===== src/Wire.antt =====
-- The wire formats of tcp-core/src/wire.
pub mod Checksum
pub mod Ipv4
pub mod Icmp
pub mod Tcp
mod Tests
