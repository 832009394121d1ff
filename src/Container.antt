-- ===== src/Container.antt =====
-- src/container.rs: the life of a container.
pub mod Policy
pub mod PolicyLaws
pub mod Metadata
pub mod Find
pub mod Locate
pub mod Located
pub mod Copy
pub mod Setup
pub mod Round
pub mod Run
pub mod Monitor
pub mod Recorded
pub mod Stop
pub mod Waiting
mod Tests
