-- ===== src/Protocol.antt =====
-- monitor/protocol.go: the host's side of the ESPNS/1 handshake.
pub mod Line
pub mod LineRead
pub mod LineTooLong
pub mod Fields
pub mod Message
pub mod Defs
pub mod Proved
pub mod Security
pub mod Secrecy
pub mod Configured
pub mod Dial
