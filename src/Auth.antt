-- ===== src/Auth.antt =====
-- monitor/auth.go: the settings that every connection is made with.
pub mod Settings
pub mod Quote
pub mod Config
pub mod Firmware
pub mod Provision
