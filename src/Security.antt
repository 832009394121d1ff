-- ===== src/Security.antt =====
-- src/security.rs: capabilities, masked paths and the seccomp filter.
pub mod Caps
pub mod Filter
pub mod Hardening
pub mod CapsLaws
pub mod FilterLaws
mod Tests
