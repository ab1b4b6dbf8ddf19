-- ===== src/Auth/Firmware/Managed.antt =====
-- Which files `writeManagedFirmwareConfig` touches, and what it writes.
use espnetwork_serial.Prelude.{
  ◌≡◌, ◌≢◌, refl, sym, ◌∙◌, ap, false, [], some, arith, Bool-cases, inl, inr,
}
use espnetwork_serial.Prelude.Bytes.{Bytes, same}
use espnetwork_serial.Prelude.Text.{trim_space}
use espnetwork_serial.Os.{
  not_exist, permission, other_error, File, Disk, lookup, ReadOutcome, contents, unread, read_file,
  write_file, mkdir_all, write_file-other, chmod-other, remove-other, mkdir_all-files,
  read_file-files, read_file-contents, read_file-not_exist,
}
use espnetwork_serial.Auth.Settings.{AuthSettings, enabled}
use espnetwork_serial.Auth.Config.{private_mode}
use espnetwork_serial.Auth.Firmware.Defs.{
  is_managed, FirmwareResult, remove_managed, remove_outcome, remove_managed_firmware_config,
  firmware_text, write_firmware, write_outcome, write_managed_firmware_config,
}

-- A file of somebody else: it is there, and lacks the mark of the installer.
pub record Foreign (d : Disk) (path : Bytes) : Type 0 where
  pub file : File
  pub at : lookup path d.files ≡ some file
  pub unmarked : is_managed file.bytes ≡ false

abbrev Left : Disk → Disk × FirmwareResult → Type 0
Left d r = r.0.files ≡ d.files

remove_outcome-Left :
    (d : Disk) (path : Bytes) (o : ReadOutcome)
    → ((text : Bytes) → o ≡ contents text → is_managed text ≡ false)
    → Left d (remove_outcome d path o)
unfolding remove_outcome
remove_outcome-Left d path (contents text) h = rw (h text refl) refl
remove_outcome-Left d path (unread not_exist) h = refl
remove_outcome-Left d path (unread permission) h = refl
remove_outcome-Left d path (unread (other_error n)) h = refl

write_outcome-Left :
    (d : Disk) (path key : Bytes) (o : ReadOutcome)
    → ((text : Bytes) → o ≡ contents text → is_managed text ≡ false)
    → o ≢ unread not_exist
    → Left d (write_outcome d path key o)
unfolding write_outcome
write_outcome-Left d path key (contents text) h ne = rw (h text refl) refl
write_outcome-Left d path key (unread not_exist) h ne = absurd (ne refl)
write_outcome-Left d path key (unread permission) h ne = refl
write_outcome-Left d path key (unread (other_error n)) h ne = refl

Foreign-read :
    (d : Disk) (path : Bytes) (h : Foreign d path)
    → (text : Bytes) → (read_file d path).1 ≡ contents text
    → is_managed text ≡ false
Foreign-read d path h text e =
    let (f, there, b) = read_file-contents d path text e in
    let same_file : f ≡ h.file = cc (there, h.at) in
    let same_text : h.file.bytes ≡ text = sym (ap (λ (x : File). x.bytes) same_file) ∙ b in
    rw (sym same_text) h.unmarked

Foreign-exists :
    (d : Disk) (path : Bytes) → Foreign d path → (read_file d path).1 ≢ unread not_exist
Foreign-exists d path h e = cc (read_file-not_exist d path e, h.at)

-- A file without the mark of the installer is never changed or removed, and neither is any other
-- file, whatever the settings and whatever call fails.
pub write_managed_firmware_config-Foreign :
    (d : Disk) (path : Bytes) (settings : AuthSettings)
    → Foreign d path
    → (write_managed_firmware_config d path settings).0.files ≡ d.files
unfolding write_managed_firmware_config remove_managed_firmware_config
write_managed_firmware_config-Foreign d path settings h =
    let d' = (read_file d path).0 in
    let unmarked = Foreign-read d path h in
    elim (Bool-cases (same (trim_space path) [])) [
      | inl q ↦ rw q refl
      | inr q ↦ elim (Bool-cases (enabled settings)) [
        | inl on ↦
            rw (q, on)
              (write_outcome-Left d' path settings.key (read_file d path).1 unmarked
                  (Foreign-exists d path h)
                ∙ read_file-files d path)
        | inr off ↦
            rw (q, off)
              (remove_outcome-Left d' path (read_file d path).1 unmarked ∙ read_file-files d path)
      ]
    ]

-- No other file is touched.
remove_outcome-other :
    (d : Disk) (path : Bytes) (o : ReadOutcome) (r : Bytes)
    → path ≢ r
    → lookup r (remove_outcome d path o).0.files ≡ lookup r d.files
unfolding remove_outcome remove_managed
remove_outcome-other d path (contents text) r ne = ground (arith, remove-other d path r ne)
remove_outcome-other d path (unread not_exist) r ne = refl
remove_outcome-other d path (unread permission) r ne = refl
remove_outcome-other d path (unread (other_error n)) r ne = refl

write_firmware-other :
    (d : Disk) (path key r : Bytes)
    → path ≢ r
    → lookup r (write_firmware d path key).0.files ≡ lookup r d.files
unfolding write_firmware
write_firmware-other d path key r ne =
    let d1 = (mkdir_all d).0 in
    let made = ap (lookup r) (mkdir_all-files d) in
    let wrote = write_file-other d1 path r ne (firmware_text key) private_mode in
    let secured =
      chmod-other (write_file d1 path (firmware_text key) private_mode).0 path r ne private_mode in
    ground (arith, made, wrote, secured)

write_outcome-other :
    (d : Disk) (path key : Bytes) (o : ReadOutcome) (r : Bytes)
    → path ≢ r
    → lookup r (write_outcome d path key o).0.files ≡ lookup r d.files
unfolding write_outcome
write_outcome-other d path key (contents text) r ne =
    ground (arith, write_firmware-other d path key r ne)
write_outcome-other d path key (unread not_exist) r ne = write_firmware-other d path key r ne
write_outcome-other d path key (unread permission) r ne = refl
write_outcome-other d path key (unread (other_error n)) r ne = refl

pub write_managed_firmware_config-other :
    (d : Disk) (path : Bytes) (settings : AuthSettings) (r : Bytes)
    → path ≢ r
    → lookup r (write_managed_firmware_config d path settings).0.files ≡ lookup r d.files
unfolding write_managed_firmware_config remove_managed_firmware_config
write_managed_firmware_config-other d path settings r ne =
    let d' = (read_file d path).0 in
    let o = (read_file d path).1 in
    let read = ap (lookup r) (read_file-files d path) in
    ground (
      arith,
      read,
      write_outcome-other d' path settings.key o r ne,
      remove_outcome-other d' path o r ne,
    )
