-- ===== src/Monitor.antt =====
-- The monitors of modules/*: what one check does to the state of a host.
pub mod Icmp
pub mod Runner
pub mod Tcp
pub mod Usage
