-- ===== src/Auth/Firmware.antt =====
-- The header file with the key, from which the firmware is built.
mod Defs
mod Managed
mod Content
unfoldable pub use Defs.*
pub use Managed.*
pub use Content.*
