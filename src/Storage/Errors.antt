-- ===== src/Storage/Errors.antt =====
-- storage/traits.rs: what a call of the storage may fail with.
use simple_network_monitor.Prelude.{String}

-- `internal` stands for the failures of SQLite, of JSON, of a task and of a lock.
pub data StorageError : Type 0 where
  invalid_query : String → StorageError
  busy : StorageError
  stale_generation : StorageError
  not_found : String → StorageError
  invalid_data : String → StorageError
  internal : String → StorageError
