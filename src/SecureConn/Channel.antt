-- ===== src/SecureConn/Channel.antt =====
-- The two halves together: what one side writes, the other side reads.
mod Stream
mod Opens
mod Next
mod Receive
pub use Stream.{Pending, Delivers}
pub use Next.{read-Delivers}
pub use Receive.*
