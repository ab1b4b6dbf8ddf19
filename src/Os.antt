-- ===== src/Os.antt =====
-- The file system, as the monitor uses it through Go's package os.
mod Files
mod Laws
unfoldable pub use Files.*
pub use Laws.*
