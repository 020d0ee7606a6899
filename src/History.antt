-- ===== src/History.antt =====
-- storage/sqlite/history/*.rs: the durable history. A table is the list of its rows in the order of
-- their row numbers; a new row goes to the end. Times are Unix milliseconds. A row is never older
-- than the epoch, and the code only compares the cutoffs with rows, so that a cutoff before the
-- epoch is modelled by 0: both come before every row. A stored observation or statistic is the value
-- itself: its JSON text is written and read by the same type.
pub mod Tables
pub mod Rollup
pub mod Ingest
pub mod Epochs
pub mod Query
pub mod Events
pub mod Series
