-- ===== src/SecureConn.antt =====
-- monitor/secure_conn.go: the AES-256-GCM record layer over a connection, and the derivation of its
-- keys. The two mutexes make each Write atomic among writes and each Read among reads; a Write
-- changes only the tx fields and the outgoing side of the connection, a Read only the rx fields and
-- the incoming side.
pub mod Gcm
pub mod Defs
pub mod WriteAll
pub mod Write
pub mod Read
pub mod Channel
pub mod Nonce
pub mod Keys
