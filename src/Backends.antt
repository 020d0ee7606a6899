-- ===== src/Backends.antt =====
-- The backends of backends/*: how a probe is prepared and its answer read. Sockets, processes and
-- the resolver belong to other libraries, and what they answer is an argument.
pub mod Identifiers
pub mod Tcp
