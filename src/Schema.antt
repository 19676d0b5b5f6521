-- ===== src/Schema.antt =====
-- schema/: the trace format that every stage reads and writes.
mod Models
mod Taxonomy
pub mod Confidence
unfoldable pub use Models.*
unfoldable pub use Taxonomy.*
