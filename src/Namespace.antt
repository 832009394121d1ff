-- ===== src/Namespace.antt =====
-- src/namespace.rs: the start of the container's first process.
pub mod User
pub mod Lookup
pub mod Child
pub mod Clone
pub mod Exec
pub mod Hardened
mod Tests
