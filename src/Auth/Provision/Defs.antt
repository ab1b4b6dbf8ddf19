-- ===== src/Auth/Provision/Defs.antt =====
-- `provisionAuthConfig` and `runAuthProvisioning`.
use espnetwork_serial.Prelude.{
  Bool, true, false, not, ◌&&◌, ◌||◌, List, [], ◌∷◌, ◌++◌, Option, none, some, if◌then◌else◌,
}
use espnetwork_serial.Prelude.Bytes.{Bytes, same}
use espnetwork_serial.Prelude.Text.{trim_space}
use espnetwork_serial.Os.{Disk}
use espnetwork_serial.Auth.Settings.{AuthSettings, enabled, MonitorConfig, settings_from_config}
use espnetwork_serial.Auth.Config.{
  Codec, System, ConfigError, path_unavailable, no_random, both_flags, resolve_auth_config_path,
  ConfigRead, config, no_config, config_error, read_monitor_config, Loaded, loaded, load_error,
  loaded_from, load_persistent_auth_settings, generate_auth_key_hex, write_monitor_config,
}
use espnetwork_serial.Auth.Firmware.{
  FirmwareResult, done, firmware_error, write_managed_firmware_config,
}

-- The settings, and whether they are new; or an error.
pub data Provisioned : Type 0 where
  provisioned : AuthSettings → Bool → Provisioned
  provision_error : ConfigError → Provisioned

abbrev pub provisioned_from : Loaded → Bool → Provisioned
provisioned_from (loaded a) changed = provisioned a changed
provisioned_from (load_error e) changed = provision_error e

abbrev pub new_config : Bytes → MonitorConfig
new_config key = record { auth_key = key; allow_unauthenticated = false }

-- A new key, and the file with it.
unfoldable pub generate_config : Codec → System → Disk → Bytes → Disk × Provisioned
generate_config codec sys d path = elim (generate_auth_key_hex sys 32) [
  | none ↦ (d, provision_error no_random)
  | some key ↦
      let (d', e) = write_monitor_config codec d path (new_config key) in
      elim e [
        | some err ↦ (d', provision_error err)
        | none ↦
            (d', provisioned_from (loaded_from (settings_from_config path (new_config key))) true)
      ]
]

unfoldable pub provision_read :
    Codec → System → Disk → Bytes → Bool → ConfigRead → Disk × Provisioned
provision_read codec sys d path force (config_error e) = (d, provision_error e)
provision_read codec sys d path force no_config = generate_config codec sys d path
provision_read codec sys d path force (config cfg) =
    if not force
    then (d, provisioned_from (loaded_from (settings_from_config path cfg)) false)
    else generate_config codec sys d path

-- `provisionAuthConfig`, without the path, which `resolve_auth_config_path` gives.
unfoldable pub provision_auth_config : Codec → System → Disk → Bool → Disk × Provisioned
provision_auth_config codec sys d force =
    let path = resolve_auth_config_path codec sys in
    let (d', read) = read_monitor_config codec d path in
    if same path []
    then (d, provision_error path_unavailable)
    else provision_read codec sys d' path force read

-- A line on the standard output.
pub data Message : Type 0 where
  generated_new generated reusing disables firmware_config : Bytes → Message
  firmware_disabled : Message

-- What the program says about the key.
abbrev pub key_message : Bytes → Bool → AuthSettings → Bool → Message
key_message path regenerate a changed =
    if changed && regenerate
    then generated_new path
    else if changed
    then generated path
    else if enabled a
    then reusing path
    else disables path

pub data Handled : Type 0 where
  not_handled : Handled
  handled : List Message → Option ConfigError → Handled

abbrev pub firmware_message : Bytes → AuthSettings → FirmwareResult → List Message → Handled
firmware_message path a (firmware_error e) ms = handled ms (some e)
firmware_message path a (done true) ms = handled (ms ++ firmware_config path ∷ []) none
firmware_message path a (done false) ms =
    if not (enabled a) then handled (ms ++ firmware_disabled ∷ []) none else handled ms none

-- The last step: the header file for the firmware, if its path is given.
unfoldable pub provision_firmware : Disk → Bytes → AuthSettings → List Message → Disk × Handled
provision_firmware d path a ms =
    let (d', r) = write_managed_firmware_config d path a in
    if not (same (trim_space path) [])
    then (d', firmware_message path a r ms)
    else (d, handled ms none)

unfoldable pub after_provision :
    Codec → System → Bool → Bool → Bytes → Disk × Provisioned → Disk × Handled
after_provision codec sys speaks regenerate firmware (d, provision_error e) =
    (d, handled [] (some e))
after_provision codec sys speaks regenerate firmware (d, provisioned a changed) =
    provision_firmware d firmware a (
      if speaks
      then key_message (resolve_auth_config_path codec sys) regenerate a changed ∷ []
      else [])

-- The settings by which the program goes on.
unfoldable pub obtain_settings : Codec → System → Disk → Bool → Bool → Disk × Provisioned
obtain_settings codec sys d provision regenerate =
    if provision || regenerate
    then provision_auth_config codec sys d regenerate
    else (let (d', r) = load_persistent_auth_settings codec sys d in (d', provisioned_from r false))

unfoldable pub run_auth_provisioning : Codec → System → Disk → Bool → Bool → Bytes → Disk × Handled
run_auth_provisioning codec sys d provision regenerate firmware =
    if not provision && not regenerate && same (trim_space firmware) []
    then (d, not_handled)
    else if provision && regenerate
    then (d, handled [] (some both_flags))
    else after_provision codec sys (provision || regenerate) regenerate firmware
        (obtain_settings codec sys d provision regenerate)
