-- ===== src/Process.antt =====
-- main.rs: the manager of the monitors.
pub mod Manager
