-- ===== src/App.antt =====
-- monitor/main.go: the commands of the Pluggable Monitor protocol, and the life of a session.
pub mod Command
pub mod Defs
pub mod Handle
pub mod Sessions
pub mod Address
pub mod Dialable
pub mod BeforeHello
pub mod Closed
pub mod Invariant
pub mod Keeps
pub mod Replies
pub mod Responding
