-- ===== src/App.antt =====
-- app/*.rs: the parser of the filters of the API.
pub mod Filters
