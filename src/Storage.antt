-- ===== src/Storage.antt =====
-- storage/sqlite: what the database keeps beside the histories, and the storage that the monitors
-- and the API share. A transaction that is not committed leaves the tables as they were, so that an
-- error carries no state. A lock is not modelled: it is poisoned only by a panic.
pub mod Jobs
pub mod Errors
pub mod Tables
pub mod Identities
pub mod Reconfigure
pub mod Startup
pub mod Updates
pub mod Writes
pub mod Retention
pub mod Filtering
pub mod Records
