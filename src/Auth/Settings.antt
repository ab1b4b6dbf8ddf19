-- ===== src/Auth/Settings.antt =====
-- `authSettings`, `settingsFromConfig`.
use espnetwork_serial.Prelude.{ℕ, Bool, ltb, length, ◌==◌, if◌then◌else◌, []}
use espnetwork_serial.Prelude.Bytes.{Bytes}

abbrev pub min_auth_key_bytes : ℕ
min_auth_key_bytes = 16

abbrev pub max_auth_key_bytes : ℕ
max_auth_key_bytes = 128

pub record AuthSettings : Type 0 where
  pub key : Bytes
  pub allow_unauthenticated : Bool
  pub source : Bytes

abbrev pub enabled : AuthSettings → Bool
enabled a = ltb 0 (length a.key)

pub record MonitorConfig : Type 0 where
  pub auth_key : Bytes
  pub allow_unauthenticated : Bool

-- The settings, with an error about the length of the key.
pub data SettingsResult : Type 0 where
  settings : AuthSettings → SettingsResult
  too_short too_long : AuthSettings → SettingsResult

-- The tests on the key at the end of `settingsFromConfig` and of `loadAuthSettings`.
unfoldable pub check_key : AuthSettings → SettingsResult
check_key a =
    if length a.key == 0
    then settings (record a { source = [] })
    else if ltb (length a.key) min_auth_key_bytes
    then too_short a
    else if ltb max_auth_key_bytes (length a.key)
    then too_long a
    else settings a

unfoldable pub settings_from_config : Bytes → MonitorConfig → SettingsResult
unfolding check_key
settings_from_config path cfg = check_key (record {
  key = cfg.auth_key;
  allow_unauthenticated = cfg.allow_unauthenticated;
  source = path;
})
