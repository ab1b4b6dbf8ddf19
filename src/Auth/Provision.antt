-- ===== src/Auth/Provision.antt =====
-- Making, keeping and handing on the key: the options of the installer.
mod Defs
mod Again
mod Handing
unfoldable pub use Defs.*
pub use Again.*
pub use Handing.*
