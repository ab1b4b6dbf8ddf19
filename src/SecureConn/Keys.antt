-- ===== src/SecureConn/Keys.antt =====
-- The derivation of the session keys (`deriveESPNSKeys`, HKDF with SHA-256 of RFC 5869).
mod Defs
mod Rfc
mod Derive
unfoldable pub use Defs.*
pub use Rfc.*
pub use Derive.*
