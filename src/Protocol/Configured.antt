-- ===== src/Protocol/Configured.antt =====
-- The settings of the configuration file, as the dial uses them.
use espnetwork_serial.Prelude.{◌≤◌, ◌<◌, ◌≡◌, true, false, length, arith}
use espnetwork_serial.SecureConn.Gcm.{Gcm}
use espnetwork_serial.SecureConn.Keys.{Hmac}
use espnetwork_serial.Prelude.Bytes.{Bytes}
use espnetwork_serial.Auth.Settings.{
  AuthSettings, enabled, MonitorConfig, settings, check_key, settings_from_config,
  min_auth_key_bytes, max_auth_key_bytes,
}
use espnetwork_serial.Protocol.Message.{Env}
use espnetwork_serial.Protocol.Defs.{TcpDial, dial_espns}
use espnetwork_serial.Protocol.Dial.{IsSafe, dial_espns-IsSafe}

-- The settings hold a key of 16 to 128 bytes, and forbid unauthenticated devices.
pub record Strict (cfg : MonitorConfig) (a : AuthSettings) : Type 0 where
  pub key : a.key ≡ cfg.auth_key
  pub shortest : min_auth_key_bytes ≤ length a.key
  pub longest : length a.key ≤ max_auth_key_bytes
  pub strict : a.allow_unauthenticated ≡ false

settings_from_config-Strict :
    (path : Bytes) (cfg : MonitorConfig) (a : AuthSettings)
    → 0 < length cfg.auth_key
    → cfg.allow_unauthenticated ≡ false
    → settings_from_config path cfg ≡ settings a
    → Strict cfg a
unfolding settings_from_config check_key
settings_from_config-Strict path cfg a has_key strict e = record {
  key = ground (arith, e);
  shortest = ground (arith, e);
  longest = ground (arith, e);
  strict = ground (arith, e);
}

-- A configuration file that names a key, does not allow unauthenticated devices, and is accepted,
-- gives settings with just that key, of 16 to 128 bytes, under which `dialESPNS` returns an
-- encrypted connection that starts at the first records, or an error with the connection closed.
pub dial_espns-configured :
    (hmac : Hmac) (g : Gcm) (env : Env) (path : Bytes) (cfg : MonitorConfig) (a : AuthSettings)
    (d : TcpDial)
    → 0 < length cfg.auth_key
    → cfg.allow_unauthenticated ≡ false
    → settings_from_config path cfg ≡ settings a
    → Strict cfg a × IsSafe (dial_espns hmac g env a d)
dial_espns-configured hmac g env path cfg a d has_key strict e =
    let s = settings_from_config-Strict path cfg a has_key strict e in
    let shortest = s.shortest in
    let on : enabled a ≡ true = ground arith in (s, dial_espns-IsSafe hmac g env a d on s.strict)
