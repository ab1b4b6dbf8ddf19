-- ===== src/Reconnect.antt =====
-- monitor/main.go, reconnectingTCP: one connection to the board for the readers and the writers,
-- dialed again when it breaks.
pub mod Defs
pub mod Moves
pub mod Duties
pub mod Invariant
pub mod Reachable
pub mod Leak
pub mod Exclusive
pub mod Contract
pub mod Deadline
