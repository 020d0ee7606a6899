-- ===== src/Api.antt =====
-- api.rs and its modules: the answers of the HTTP API that hold decisions of their own.
pub mod Access
pub mod Dto
pub mod Ready
