-- ===== src/Lib.antt =====
-- A model of the simple network monitor, with the properties that make it correct.
--
-- The program checks hosts over ICMP, TCP and SSH, keeps the state of each host and a durable
-- history in SQLite, and serves both over HTTP. A check asks a backend for a reply and updates the
-- state of the host; the storage records the observation under the active epoch of the check, and
-- turns the time between observations into spans; maintenance jobs roll the spans up into buckets of
-- five minutes, an hour and a day, and a query reads the buckets. The filters of the API ask the
-- usage history whether a host has been inactive for a duration.
--
-- Which file models which part:
--   * Domain/*: the values and pure decisions of src/domain/*.rs, one file for each of those.
--     Domain/History/Stats is the statistics of src/domain/history.rs, and Domain/Inactivity is
--     evaluate_inactivity of src/domain/filters.rs with the SQL of SqliteInactivityHistory in
--     src/storage/sqlite/queries.rs.
--   * App/Filters: the table of filter keys and the parsers of src/app/filters.rs.
--   * Monitor/Icmp: check_once of src/modules/icmp/monitor.rs. Monitor/Icmp/Spec reads the status
--     off the history of replies. Monitor/Usage and Monitor/Tcp: the jobs of monitor.rs in
--     src/modules/usage and src/modules/tcp. Monitor/Runner: one round of run_job in
--     src/modules/runner.rs, with the counters of src/app/telemetry.rs.
--   * Backends/Identifiers: the identifiers in flight of src/backends/ping/mod.rs. Backends/Tcp:
--     TcpConnectCheck of src/backends/tcp.rs.
--   * History/*: src/storage/sqlite/history: the tables and add_stats (mod.rs; History/Tables/Counting
--     has the totals that a bucket is compared with), rollup (rollup.rs),
--     record, flush_tail and close_epoch (ingest.rs), and in History/Epochs the synchronisation of
--     the epochs with the configuration. History/Query is HistoryRequest of src/domain/history.rs
--     and the choice of buckets in query.rs, History/Events the pages of events and samples there,
--     and History/Series the labels of the series and the spans that are credited to their buckets.
--   * Storage/*: src/storage/sqlite/mod.rs with the modules beside it. Storage/Tables has the tables
--     and the state behind the writer mutex; Startup, Reconfigure and Identities what opening a
--     database and replacing its configuration do; Updates and Writes the writes of the monitors,
--     through the generation of their handle; Retention the pruning; Filtering and Records the
--     records that a filter lets through. Storage/Jobs: the scheduler of maintenance jobs of jobs.rs.
--   * Config/*: the validation of a parsed file, the resolution of its hosts and the reload, of
--     src/config.rs and of mod.rs in src/modules/icmp, usage and tcp.
--   * Process/Manager: the manager of the monitors in src/main.rs.
--   * Api/*: authorize (auth.rs), the answers to errors (errors.rs), the response of a host (dto.rs)
--     and readyz (routes/mod.rs) of src/api.
--   * Prelude/*: shared types and lemmas; Prelude/Float has the operations of f64 that are used.
--   * Examples/*: the properties at concrete inputs.
--
-- The parts meet where the program's do: the monitors write through Storage/Writes, which records in
-- History/Ingest and asks the generation that Storage/Reconfigure moves on; a synchronisation of
-- Storage/Identities runs that of History/Epochs; a filter of App/Filters is answered by
-- Storage/Filtering, which evaluates Domain/Inactivity; and Api/Ready reads Storage/Records.
--
-- How the code is read: a duration or an instant is a number of nanoseconds, and a time in a table
-- is a number of milliseconds, both from the epoch on. A table is the list of its rows in the order
-- of their row numbers, and a transaction is a function on tables, on a database that answers. The
-- clock, the reply of a backend and the outcome of a job are arguments. The counters u16, u32 and
-- u64 wrap or saturate as written in the source, and f64 is an interface without laws. The loop of
-- rollup is recursion on its limit of work, and the search for an identifier is recursion on the
-- 65536 rounds of the source, so that no fuel is added. The loop that spreads a span over buckets has
-- a round for each of its milliseconds, and each round moves on by one at least. An error text that
-- quotes its input is the input, or leaves it out.
--
-- Not modelled: process start and signals, the sockets, the child processes and DNS, the conversions
-- of rows and the parsing of files, which call other libraries; the HTTP routes that pass their input
-- on, with the catalog and the help texts of the API and its metrics; the parsing of query strings;
-- the rest of a history query around its series; the pruning of the history by a maintenance job;
-- the command line and the script of the usage collector.
pub mod Api
pub mod App
pub mod Prelude
pub mod Domain
pub mod Monitor
pub mod Backends
pub mod History
pub mod Process
pub mod Storage
pub mod Examples
pub mod Config
