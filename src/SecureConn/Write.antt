-- ===== src/SecureConn/Write.antt =====
-- `Write`, against the stream of records that it stands for.
mod Spec
mod Record
mod Loop
pub use Spec.*
pub use Loop.*
