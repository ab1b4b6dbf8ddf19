-- ===== src/Auth/Quote.antt =====
-- `quoteCStringBytes`, and how C reads what it writes.
mod Defs
mod Reading
mod RoundTrip
unfoldable pub use Defs.*
unfoldable pub use Reading.*
pub use RoundTrip.*
