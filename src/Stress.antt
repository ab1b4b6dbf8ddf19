-- ===== src/Stress.antt =====
-- monitor/stress.go: the test that sends a pattern to the board and reads it back, cycle by cycle.
pub mod Defs
pub mod Claims
pub mod Verdict
pub mod Ending
