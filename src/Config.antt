-- ===== src/Config.antt =====
-- config.rs and the module settings of modules/*/mod.rs: from the parsed file to the configuration
-- that the service runs. Parsing is serde's; a module table that does not parse is refused before.
pub mod Modules
pub mod Validate
pub mod Hosts
pub mod Reload
pub mod Distinct
pub mod Soundness
