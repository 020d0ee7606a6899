-- ===== src/Domain/History.antt =====
-- domain/history.rs: mergeable statistics, and what one observation or one span of time adds to them.
-- The counters are `u64`, whose sums wrap in a release build; the latencies are `f64`.
pub mod Stats
pub mod Merging
pub mod Percentile
