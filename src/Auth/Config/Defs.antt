-- ===== src/Auth/Config/Defs.antt =====
-- `resolveAuthConfigPath`, `readMonitorConfig`, `loadPersistentAuthSettings`, `loadAuthSettings`,
-- `generateAuthKeyHex` and `writeMonitorConfig`.
use espnetwork_serial.Prelude.{
  ℕ, Bool, true, false, not, ◌&&◌, ◌||◌, List, [], ◌∷◌, ◌++◌, Option, none, some, ◌==◌,
  if◌then◌else◌,
}
use espnetwork_serial.Prelude.Bytes.{Bytes, codes, same}
use espnetwork_serial.Prelude.Hex.{hex_encode}
use espnetwork_serial.Prelude.Text.{trim_space}
use espnetwork_serial.Os.{
  OsError, not_exist, permission, other_error, Disk, ReadOutcome, contents, unread, read_file,
  write_file, chmod, remove, rename, mkdir_all,
}
use espnetwork_serial.Auth.Settings.{
  AuthSettings, MonitorConfig, SettingsResult, settings, too_short, too_long, check_key,
  settings_from_config,
}

-- What stands outside: package encoding/json on the type of the configuration, and the file
-- `config.json` beside an executable.
pub record Codec : Type 0 where
  pub encode : MonitorConfig → Option Bytes
  pub decode : Bytes → Option MonitorConfig
  pub beside : Bytes → Bytes

-- The environment: three variables, of which ESPNS_CONFIG reads as empty if it is not set, the
-- path of the executable, and the random bytes.
pub record System : Type 0 where
  pub config_variable : Bytes
  pub key_variable : Option Bytes
  pub allow_variable : Option Bytes
  pub executable : Option Bytes
  pub random : Option Bytes

pub data ConfigError : Type 0 where
  path_unavailable encode_failed negative_length no_random firmware_path_empty both_flags
        bad_allow_variable :
      ConfigError
  parse_failed not_managed : Bytes → ConfigError
  read_failed create_directory_failed write_failed secure_failed replace_failed retry_failed
        remove_failed :
      OsError → ConfigError
  key_too_short key_too_long : ConfigError

unfoldable pub resolve_auth_config_path : Codec → System → Bytes
resolve_auth_config_path codec sys =
    if not (same (trim_space sys.config_variable) [])
    then trim_space sys.config_variable
    else elim sys.executable [ none ↦ [] | some path ↦ codec.beside path ]

pub data ConfigRead : Type 0 where
  config : MonitorConfig → ConfigRead
  no_config : ConfigRead
  config_error : ConfigError → ConfigRead

-- `bytes.TrimPrefix` of the mark at the front of a text in UTF-8.
unfoldable pub trim_bom : Bytes → Bytes
trim_bom (a ∷ b ∷ c ∷ s) = if a == 0xef && b == 0xbb && c == 0xbf then s else a ∷ b ∷ c ∷ s
trim_bom s = s

abbrev pub parsed : Bytes → Option MonitorConfig → ConfigRead
parsed path none = config_error (parse_failed path)
parsed path (some cfg) = config cfg

unfoldable pub read_outcome : Codec → Bytes → ReadOutcome → ConfigRead
read_outcome codec path (contents text) = parsed path (codec.decode (trim_bom text))
read_outcome codec path (unread not_exist) = no_config
read_outcome codec path (unread permission) = config_error (read_failed permission)
read_outcome codec path (unread (other_error n)) = config_error (read_failed (other_error n))

unfoldable pub read_monitor_config : Codec → Disk → Bytes → Disk × ConfigRead
read_monitor_config codec d path =
    let (d', outcome) = read_file d path in
    if same (trim_space path) []
    then (d, config_error path_unavailable)
    else (d', read_outcome codec path outcome)

-- Settings with no error, or an error.
pub data Loaded : Type 0 where
  loaded : AuthSettings → Loaded
  load_error : ConfigError → Loaded

abbrev pub no_settings : AuthSettings
no_settings = record { key = []; allow_unauthenticated = false; source = [] }

abbrev pub loaded_from : SettingsResult → Loaded
loaded_from (settings a) = loaded a
loaded_from (too_short a) = load_error key_too_short
loaded_from (too_long a) = load_error key_too_long

abbrev pub from_config : Bytes → ConfigRead → Loaded
from_config path (config cfg) = loaded_from (settings_from_config path cfg)
from_config path no_config = loaded no_settings
from_config path (config_error e) = load_error e

-- `loadPersistentAuthSettings`, without the path, which `resolve_auth_config_path` gives.
unfoldable pub load_persistent_auth_settings : Codec → System → Disk → Disk × Loaded
load_persistent_auth_settings codec sys d =
    let path = resolve_auth_config_path codec sys in
    let (d', cfg) = read_monitor_config codec d path in
    if same path [] then (d, load_error path_unavailable) else (d', from_config path cfg)

is_one_of : Bytes → List Bytes → Bool
is_one_of s [] = false
is_one_of s (t ∷ ts) = same s t || is_one_of s ts

-- `strconv.ParseBool`.
unfoldable pub parse_bool : Bytes → Option Bool
unfolding is_one_of
parse_bool s =
    if is_one_of s
      (codes "1" ∷ codes "t" ∷ codes "T" ∷ codes "TRUE" ∷ codes "true" ∷ codes "True" ∷ [])
    then some true
    else if is_one_of s
        (codes "0" ∷ codes "f" ∷ codes "F" ∷ codes "FALSE" ∷ codes "false" ∷ codes "False" ∷ [])
    then some false
    else none

-- The value of a variable that is set to more than white space.
abbrev pub set_value : Option Bytes → Option Bytes
set_value none = none
set_value (some text) = if same (trim_space text) [] then none else some text

abbrev pub key_source : Bytes
key_source = codes "ESPNS_AUTH_KEY environment variable"

abbrev pub with_key : AuthSettings → Option Bytes → AuthSettings
with_key a none = a
with_key a (some text) = record a { key = text; source = key_source }

-- The end of `loadAuthSettings`: the variables over what the file gave.
unfoldable pub with_variables : System → AuthSettings → Loaded
with_variables sys a =
    let a' = with_key a (set_value sys.key_variable) in
    elim (set_value sys.allow_variable) [
      | none ↦ loaded_from (check_key a')
      | some text ↦ elim (parse_bool text) [
        | none ↦ load_error bad_allow_variable
        | some allow ↦ loaded_from (check_key (record a' { allow_unauthenticated = allow }))
      ]
    ]

unfoldable pub and_variables : System → Loaded → Loaded
and_variables sys (loaded a) = with_variables sys a
and_variables sys (load_error e) = load_error e

unfoldable pub load_auth_settings : Codec → System → Disk → Disk × Loaded
load_auth_settings codec sys d =
    let path = resolve_auth_config_path codec sys in
    let (d', cfg) = read_monitor_config codec d path in
    if same path []
    then (d, with_variables sys no_settings)
    else (d', and_variables sys (from_config path cfg))

-- `generateAuthKeyHex`; the random bytes are as many as it asks for.
unfoldable pub generate_auth_key_hex : System → ℕ → Option Bytes
generate_auth_key_hex sys bytes =
    if bytes == 0 then none else elim sys.random [ none ↦ none | some raw ↦ some (hex_encode raw) ]

-- 0600 and 0700.
abbrev pub private_mode : ℕ
private_mode = 384

abbrev pub temp_path : Bytes → Bytes
temp_path path = path ++ codes ".tmp"

-- The second rename, after the old file was removed to make room.
unfoldable pub rename_again : Disk → Bytes → OsError → Disk × Option ConfigError
rename_again d path e =
    let (d', e') = rename d (temp_path path) path in
    elim e' [
      | some again ↦ ((remove d' (temp_path path)).0, some (retry_failed again))
      | none ↦ ((chmod d' path private_mode).0, none)
    ]

-- An error of `Remove` that is not `os.ErrNotExist`.
abbrev pub is_obstacle : Option OsError → Bool
is_obstacle none = false
is_obstacle (some not_exist) = false
is_obstacle (some _) = true

-- What follows a rename that failed with `e`.
unfoldable pub replace_anyway : Disk → Bytes → OsError → Disk × Option ConfigError
replace_anyway d path e =
    let (d', e') = remove d path in
    if is_obstacle e'
    then ((remove d' (temp_path path)).0, some (replace_failed e))
    else rename_again d' path e

unfoldable pub replace_config : Disk → Bytes → Disk × Option ConfigError
replace_config d path =
    let (d', e) = rename d (temp_path path) path in
    elim e [ some err ↦ replace_anyway d' path err | none ↦ ((chmod d' path private_mode).0, none) ]

-- An error of `Chmod` that is not `os.ErrPermission`.
abbrev pub fatal : Option OsError → Option OsError
fatal none = none
fatal (some permission) = none
fatal (some not_exist) = some not_exist
fatal (some (other_error n)) = some (other_error n)

unfoldable pub store_config : Disk → Bytes → Bytes → Disk × Option ConfigError
store_config d path text =
    let (d', e) = write_file d (temp_path path) text private_mode in
    let (d'', e') = chmod d' (temp_path path) private_mode in
    elim e [
      | some err ↦ (d', some (write_failed err))
      | none ↦ elim (fatal e') [
        | some err ↦ ((remove d'' (temp_path path)).0, some (secure_failed err))
        | none ↦ replace_config d'' path
      ]
    ]

unfoldable pub write_monitor_config :
    Codec → Disk → Bytes → MonitorConfig → Disk × Option ConfigError
write_monitor_config codec d path cfg =
    let (d', e) = mkdir_all d in
    if same (trim_space path) [] then (d, some path_unavailable) else elim e [
      | some err ↦ (d', some (create_directory_failed err))
      | none ↦ elim (codec.encode cfg) [
        | none ↦ (d', some encode_failed)
        | some text ↦ store_config d' path (text ++ b'\n' ∷ [])
      ]
    ]
