-- ===== src/Auth/Firmware/Content.antt =====
-- What the firmware finds in the header file.
use espnetwork_serial.Prelude.{
  ◌≡◌, ◌≢◌, refl, ◌∙◌, true, false, [], ◌∷◌, ◌++◌, some, All, arith, Bool-cases, Option-cases, inl,
  inr,
}
use espnetwork_serial.Prelude.Bytes.{Bytes, IsByte, codes, same}
use espnetwork_serial.Prelude.Text.{trim_space, has_prefix}
use espnetwork_serial.Os.{
  not_exist, permission, other_error, File, Disk, lookup, ReadOutcome, contents, unread, read_file,
  write_file, mkdir_all, write_file_self, chmod_self,
}
use espnetwork_serial.Auth.Settings.{AuthSettings, enabled}
use espnetwork_serial.Auth.Quote.{
  read_c_string, quote_c_string_bytes, read_c_string-quote_c_string_bytes,
}
use espnetwork_serial.Auth.Config.{private_mode}
use espnetwork_serial.Auth.Firmware.Defs.{
  contains, is_managed, FirmwareResult, done, firmware_error, firmware_text, write_firmware,
  write_outcome, write_managed_firmware_config, not_written,
}

-- A line that defines the macro of the firmware, up to its text.
abbrev pub define_directive : Bytes
define_directive = codes "#define ESPNS_DEFAULT_AUTH_KEY "

-- The file is one that the installer manages, and has a line, behind whole lines, that defines the
-- macro as a literal that C reads as the key, with nothing more on the line.
pub record Defines (d : Disk) (path key : Bytes) : Type 0 where
  pub file : File
  pub at : lookup path d.files ≡ some file
  pub marked : is_managed file.bytes ≡ true
  pub before : Bytes
  pub literal : Bytes
  pub behind : Bytes
  pub text : file.bytes ≡ before ++ b'\n' ∷ (define_directive ++ (literal ++ b'\n' ∷ behind))
  pub reads : read_c_string (literal ++ b'\n' ∷ behind) ≡ some (key, b'\n' ∷ behind)

firmware_text-is_managed : (key : Bytes) → is_managed (firmware_text key) ≡ true
unfolding firmware_text contains has_prefix
firmware_text-is_managed key = refl

-- What stands in front of the definition, without the last line feed.
abbrev front_lines : Bytes
front_lines =
    codes "#pragma once\n\n// ESPNetworkSerial installer-managed configuration.\n"
    ++ (codes "// Generated from the local host config by ESPNetworkSerial Setup.\n"
        ++ (codes "// This file contains a secret. Do not publish or commit it.\n\n"
            ++ codes "#ifndef ESPNS_DEFAULT_AUTH_KEY"))

firmware_text-text :
    (key : Bytes)
    → firmware_text key
      ≡ front_lines
        ++ b'\n' ∷ (define_directive ++ (quote_c_string_bytes key ++ b'\n' ∷ codes "#endif\n"))
unfolding firmware_text
firmware_text-text key = refl

text-Defines :
    (d : Disk) (path key : Bytes) (f : File)
    → All IsByte key
    → lookup path d.files ≡ some f
    → f.bytes ≡ firmware_text key
    → Defines d path key
text-Defines d path key f h e b = record {
  file = f;
  at = e;
  marked = rw b (firmware_text-is_managed key);
  before = front_lines;
  literal = quote_c_string_bytes key;
  behind = codes "#endif\n";
  text = b ∙ firmware_text-text key;
  reads = read_c_string-quote_c_string_bytes key (b'\n' ∷ codes "#endif\n") h;
}

-- With `done true` the file defines the macro as the key.
abbrev pub WrittenWell : Bytes → Bytes → Disk × FirmwareResult → Type 0
WrittenWell path key (d, done true) = Defines d path key
WrittenWell path key (d, done false) = Unit
WrittenWell path key (d, firmware_error e) = Unit

write_firmware-WrittenWell :
    (d : Disk) (path key : Bytes)
    → All IsByte key
    → WrittenWell path key (write_firmware d path key)
unfolding write_firmware
write_firmware-WrittenWell d path key h =
    let d1 = (mkdir_all d).0 in
    elim (Option-cases (mkdir_all d).1) [
      | inr (err, q) ↦ rw (write_firmware, q) tt
      | inl q ↦ elim (Option-cases (write_file d1 path (firmware_text key) private_mode).1) [
        | inr (err, q') ↦ rw (write_firmware, q, q') tt
        | inl q' ↦
            let (f, there, b) = write_file_self d1 path (firmware_text key) private_mode q' in
            let (f', there', b') =
              chmod_self (write_file d1 path (firmware_text key) private_mode).0 path private_mode f
                there in
            rw (write_firmware, q, q') (text-Defines _ path key f' h there' (b' ∙ b))
      ]
    ]

write_outcome-WrittenWell :
    (d : Disk) (path key : Bytes) (o : ReadOutcome)
    → All IsByte key
    → WrittenWell path key (write_outcome d path key o)
unfolding write_outcome
write_outcome-WrittenWell d path key (contents text) h = elim (Bool-cases (is_managed text)) [
  | inl q ↦ rw q (write_firmware-WrittenWell d path key h)
  | inr q ↦ rw q tt
]
write_outcome-WrittenWell d path key (unread not_exist) h = write_firmware-WrittenWell d path key h
write_outcome-WrittenWell d path key (unread permission) h = tt
write_outcome-WrittenWell d path key (unread (other_error n)) h = tt

not_written-WrittenWell :
    (d : Disk) (path key : Bytes) (r : FirmwareResult) → WrittenWell path key (d, not_written r)
not_written-WrittenWell d path key (done b) = tt
not_written-WrittenWell d path key (firmware_error e) = tt

-- Where `writeManagedFirmwareConfig` says that it has written the file, the file has the mark of
-- the installer, and has a line that defines ESPNS_DEFAULT_AUTH_KEY as a literal that reads in C as
-- the key of the settings.
pub write_managed_firmware_config-WrittenWell :
    (d : Disk) (path : Bytes) (settings : AuthSettings)
    → All IsByte settings.key
    → WrittenWell path settings.key (write_managed_firmware_config d path settings)
unfolding write_managed_firmware_config
write_managed_firmware_config-WrittenWell d path settings h =
    elim (Bool-cases (same (trim_space path) [])) [
      | inl q ↦ rw q tt
      | inr q ↦ elim (Bool-cases (enabled settings)) [
        | inl on ↦
            rw (q, on)
              (write_outcome-WrittenWell (read_file d path).0 path settings.key (read_file d path).1
                h)
        | inr off ↦ rw (q, off) (not_written-WrittenWell _ path settings.key _)
      ]
    ]

write_firmware-done : (d : Disk) (path key : Bytes) → (write_firmware d path key).1 ≢ done false
unfolding write_firmware
write_firmware-done d path key = ground arith

write_outcome-done :
    (d : Disk) (path key : Bytes) (o : ReadOutcome) → (write_outcome d path key o).1 ≢ done false
unfolding write_outcome
write_outcome-done d path key (contents text) = ground (arith, write_firmware-done d path key)
write_outcome-done d path key (unread not_exist) = write_firmware-done d path key
write_outcome-done d path key (unread permission) = λ e. cc e
write_outcome-done d path key (unread (other_error n)) = λ e. cc e

-- With a key, nothing but an error keeps the file from being written.
pub write_managed_firmware_config-done :
    (d : Disk) (path : Bytes) (settings : AuthSettings)
    → enabled settings ≡ true
    → (write_managed_firmware_config d path settings).1 ≢ done false
unfolding write_managed_firmware_config
write_managed_firmware_config-done d path settings on =
    ground (arith, write_outcome-done (read_file d path).0 path settings.key (read_file d path).1)
