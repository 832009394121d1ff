-- ===== src/Command.antt =====
-- src/main.rs: the commands that do more than print.
pub mod Merge
pub mod Signals
pub mod Remove
pub mod Removal
pub mod Privileges
pub mod Run
pub mod Volume
pub mod Sizes
pub mod Resize
pub mod Images
pub mod Forge
pub mod Files
pub mod Inspect
pub mod Snapshot
pub mod Diff
pub mod Stats
pub mod System
pub mod LogFiles
pub mod Mlogs
pub mod Dispatch
pub mod Gate
pub mod Shrinking
pub mod DiffLaws
mod Tests
