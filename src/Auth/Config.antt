-- ===== src/Auth/Config.antt =====
-- The configuration file: where it is, and reading and writing it.
mod Defs
mod Writing
mod Works
mod Loading
unfoldable pub use Defs.*
pub use Writing.*
pub use Works.*
pub use Loading.*
