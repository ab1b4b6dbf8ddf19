-- ===== src/Tests.antt =====
-- Runs of the definitions on concrete inputs, and the theorems at concrete inputs.
mod App
mod Auth
mod Protocol
mod SecureConn
mod Reconnect
mod Stress
