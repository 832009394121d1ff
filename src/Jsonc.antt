-- ===== src/Jsonc.antt =====
-- `strip_jsonc_comments` of src/lib.rs, which the build and forge parsers share.
pub mod Scan
pub mod Comments
pub mod Idempotent
mod Tests
unfoldable pub use Scan.{strip_jsonc_comments}
