-- ===== src/Auth/Firmware/Defs.antt =====
-- `removeManagedFirmwareConfig` and `writeManagedFirmwareConfig`.
use espnetwork_serial.Prelude.{
  Bool, true, false, not, ◌||◌, [], ◌∷◌, ◌++◌, none, some, if◌then◌else◌,
}
use espnetwork_serial.Prelude.Bytes.{Bytes, codes, same}
use espnetwork_serial.Prelude.Text.{trim_space, has_prefix}
use espnetwork_serial.Os.{
  not_exist, permission, other_error, Disk, ReadOutcome, contents, unread, read_file, write_file,
  chmod, remove, mkdir_all,
}
use espnetwork_serial.Auth.Settings.{AuthSettings, enabled}
use espnetwork_serial.Auth.Quote.{quote_c_string_bytes}
use espnetwork_serial.Auth.Config.{
  ConfigError, firmware_path_empty, not_managed, read_failed, remove_failed,
  create_directory_failed, write_failed, private_mode,
}

abbrev pub managed_firmware_config_marker : Bytes
managed_firmware_config_marker = codes "// ESPNetworkSerial installer-managed configuration"

-- `bytes.Contains`.
unfoldable pub contains : Bytes → Bytes → Bool
contains needle [] = same needle []
contains needle (c ∷ s) = has_prefix needle (c ∷ s) || contains needle s

abbrev pub is_managed : Bytes → Bool
is_managed = contains managed_firmware_config_marker

-- Whether a file was removed, or written.
pub data FirmwareResult : Type 0 where
  done : Bool → FirmwareResult
  firmware_error : ConfigError → FirmwareResult

unfoldable pub remove_managed : Disk → Bytes → Disk × FirmwareResult
remove_managed d path =
    let (d', e) = remove d path in
    elim e [ some err ↦ (d', firmware_error (remove_failed err)) | none ↦ (d', done true) ]

unfoldable pub remove_outcome : Disk → Bytes → ReadOutcome → Disk × FirmwareResult
remove_outcome d path (contents text) =
    if not (is_managed text) then (d, done false) else remove_managed d path
remove_outcome d path (unread not_exist) = (d, done false)
remove_outcome d path (unread permission) = (d, firmware_error (read_failed permission))
remove_outcome d path (unread (other_error n)) = (d, firmware_error (read_failed (other_error n)))

unfoldable pub remove_managed_firmware_config : Disk → Bytes → Disk × FirmwareResult
remove_managed_firmware_config d path =
    let (d', outcome) = read_file d path in remove_outcome d' path outcome

-- The text in front of the key, and behind it.
abbrev pub firmware_front : Bytes
firmware_front =
    codes "#pragma once\n\n// ESPNetworkSerial installer-managed configuration.\n"
    ++ (codes "// Generated from the local host config by ESPNetworkSerial Setup.\n"
        ++ (codes "// This file contains a secret. Do not publish or commit it.\n\n"
            ++ codes "#ifndef ESPNS_DEFAULT_AUTH_KEY\n#define ESPNS_DEFAULT_AUTH_KEY "))

abbrev pub firmware_back : Bytes
firmware_back = codes "\n#endif\n"

unfoldable pub firmware_text : Bytes → Bytes
firmware_text key = firmware_front ++ (quote_c_string_bytes key ++ firmware_back)

-- The directory and the file itself.
unfoldable pub write_firmware : Disk → Bytes → Bytes → Disk × FirmwareResult
write_firmware d path key =
    let (d', e) = mkdir_all d in
    let (d'', e') = write_file d' path (firmware_text key) private_mode in
    elim e [
      | some err ↦ (d', firmware_error (create_directory_failed err))
      | none ↦ elim e' [
        | some err ↦ (d'', firmware_error (write_failed err))
        | none ↦ ((chmod d'' path private_mode).0, done true)
      ]
    ]

unfoldable pub write_outcome : Disk → Bytes → Bytes → ReadOutcome → Disk × FirmwareResult
write_outcome d path key (contents text) =
    if not (is_managed text)
    then (d, firmware_error (not_managed path))
    else write_firmware d path key
write_outcome d path key (unread not_exist) = write_firmware d path key
write_outcome d path key (unread permission) = (d, firmware_error (read_failed permission))
write_outcome d path key (unread (other_error n)) =
    (d, firmware_error (read_failed (other_error n)))

abbrev pub not_written : FirmwareResult → FirmwareResult
not_written (done removed) = done false
not_written (firmware_error e) = firmware_error e

unfoldable pub write_managed_firmware_config : Disk → Bytes → AuthSettings → Disk × FirmwareResult
write_managed_firmware_config d path settings =
    let (d', outcome) = read_file d path in
    if same (trim_space path) []
    then (d, firmware_error firmware_path_empty)
    else if not (enabled settings)
    then (let (d', r) = remove_managed_firmware_config d path in (d', not_written r))
    else write_outcome d' path settings.key outcome
