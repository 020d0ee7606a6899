-- ===== src/Domain.antt =====
-- The value types and pure decisions of domain/*.rs.
pub mod Clock
pub mod Validation
pub mod Icmp
pub mod Usage
pub mod Tcp
pub mod Settings
pub mod Host
pub mod History
pub mod Maintenance
pub mod Inactivity
pub mod Filters
