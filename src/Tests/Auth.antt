-- ===== src/Tests/Auth.antt =====
-- Runs and instances for the configuration, the key and the header file of the firmware.
use espnetwork_serial.Prelude.{
  ◌≡◌, ◌≢◌, refl, ap, ◌∙◌, subst, ltb, ltb→lt, ◌&&◌, Bool-cases, inl, inr, append_assoc, Bool, true,
  false, [], ◌∷◌, ◌++◌, Option, none, some, ℕ, arith, All, ◌==◌, if◌then◌else◌,
}
use espnetwork_serial.Prelude.Bytes.{Bytes, IsByte, codes, same}
use espnetwork_serial.Prelude.Hex.{hex_encode}
use espnetwork_serial.Prelude.Text.{trim_space, has_prefix}
use espnetwork_serial.Os.{
  File, Disk, broken, lookup, insert, delete, read_file, write_file, chmod, remove, rename,
  mkdir_all,
}
use espnetwork_serial.Auth.Settings.{AuthSettings, MonitorConfig, settings_from_config}
use espnetwork_serial.Auth.Quote.{
  quote_c_string_bytes, quote_byte, read_c_string, read_c_string-quote_c_string_bytes, IsPrintable,
  quote_c_string_bytes-IsPrintable,
}
use espnetwork_serial.Auth.Config.{
  generate_auth_key_hex, Codec, System, private_mode, write_monitor_config, store_config,
  replace_config, replace_anyway, rename_again, Saved, write_monitor_config-Saved, healthy,
  write_monitor_config-works, load_auth_settings, loaded, load_persistent_auth_settings, Base, Over,
  load_auth_settings-Over, resolve_auth_config_path, read_monitor_config, parse_bool, read_outcome,
  trim_bom, with_variables, and_variables,
}
use espnetwork_serial.Auth.Firmware.{
  Foreign, write_managed_firmware_config, write_managed_firmware_config-Foreign, WrittenWell,
  write_managed_firmware_config-WrittenWell, contains,
}
use espnetwork_serial.Auth.Provision.{
  Provisioned, provisioned, provision_error, provision_auth_config, run_auth_provisioning, IsCodec,
  IsAscii, IsRandom, provision_auth_config-again, Agrees, run_auth_provisioning-Agrees,
  generate_config, provision_read,
}

odd_bytes : quote_c_string_bytes (0 ∷ b'7' ∷ b'"' ∷ 255 ∷ []) ≡ codes "\"\\0007\\\"\\377\""
unfolding quote_c_string_bytes quote_byte
odd_bytes = refl

read_c_string-quote_c_string_bytes_example :
    read_c_string (quote_c_string_bytes (0 ∷ b'7' ∷ b'"' ∷ []) ++ codes ";")
    ≡ some (0 ∷ b'7' ∷ b'"' ∷ [], codes ";")
read_c_string-quote_c_string_bytes_example =
    read_c_string-quote_c_string_bytes (0 ∷ b'7' ∷ b'"' ∷ []) (codes ";") (omega arith)

quote_c_string_bytes-IsPrintable_example : All IsPrintable (quote_c_string_bytes (10 ∷ 200 ∷ []))
quote_c_string_bytes-IsPrintable_example =
    quote_c_string_bytes-IsPrintable (10 ∷ 200 ∷ []) (omega arith)

-- A codec that does what is asked of it: the key in braces, with a mark for the permission.
abbrev mark : Bool → ℕ
mark true = b'+'
mark false = b'-'

abbrev toy_encode : MonitorConfig → Option Bytes
toy_encode cfg = some (b'{' ∷ mark cfg.allow_unauthenticated ∷ (cfg.auth_key ++ b'}' ∷ []))

keep_byte : ℕ → Option Bytes → Option Bytes
keep_byte a none = none
keep_byte a (some key) = if ltb a 256 then some (a ∷ key) else none

-- What stands in front of the closing brace and the line feed.
strip_end : Bytes → Option Bytes
strip_end [] = none
strip_end (a ∷ []) = none
strip_end (a ∷ b ∷ []) = if a == b'}' && b == b'\n' then some [] else none
strip_end (a ∷ b ∷ c ∷ s) = keep_byte a (strip_end (b ∷ c ∷ s))

abbrev with_mark : ℕ → Option Bytes → Option MonitorConfig
with_mark m none = none
with_mark m (some key) = some (record { auth_key = key; allow_unauthenticated = m == b'+' })

toy_decode : Bytes → Option MonitorConfig
toy_decode (c ∷ m ∷ s) = if c == b'{' then with_mark m (strip_end s) else none
toy_decode s = none

abbrev toy_codec : Codec
toy_codec = record {
  encode = toy_encode;
  decode = toy_decode;
  beside = λ path. path ++ codes "/config.json";
}

strip_end-keep :
    (a : ℕ) (key : Bytes)
    → strip_end (a ∷ (key ++ b'}' ∷ b'\n' ∷ []))
      ≡ keep_byte a (strip_end (key ++ b'}' ∷ b'\n' ∷ []))
unfolding strip_end
strip_end-keep a [] = refl
strip_end-keep a (b ∷ []) = refl
strip_end-keep a (b ∷ c ∷ key) = refl

strip_end-append : (key : Bytes) → All IsAscii key → strip_end (key ++ b'}' ∷ b'\n' ∷ []) ≡ some key
strip_end-append [] h = unfold strip_end in refl
strip_end-append (a ∷ key) (h, hs) =
    strip_end-keep a key ∙ rw (strip_end-append key hs) (unfold keep_byte in ground arith)

keep_byte-bytes :
    (a : ℕ) (o : Option Bytes) (key : Bytes)
    → ((key' : Bytes) → o ≡ some key' → All IsByte key')
    → keep_byte a o ≡ some key
    → All IsByte key
unfolding keep_byte
keep_byte-bytes a none key h e = cc e
keep_byte-bytes a (some k) key h e = elim (Bool-cases (ltb a 256)) [
  | inl q ↦
      let same_key : a ∷ k ≡ key = cc (rw q at e) in
      subst (All IsByte) same_key (ltb→lt a 256 q, h k refl)
  | inr q ↦ cc (rw q at e)
]

strip_end-bytes : (s key : Bytes) → strip_end s ≡ some key → All IsByte key
unfolding strip_end
strip_end-bytes [] key e = cc e
strip_end-bytes (a ∷ []) key e = cc e
strip_end-bytes (a ∷ b ∷ []) key e = elim (Bool-cases (a == b'}' && b == b'\n')) [
  | inl q ↦ let empty : [] ≡ key = cc (rw q at e) in subst (All IsByte) empty tt
  | inr q ↦ cc (rw q at e)
]
strip_end-bytes (a ∷ b ∷ c ∷ s) key e =
    keep_byte-bytes a (strip_end (b ∷ c ∷ s)) key (strip_end-bytes (b ∷ c ∷ s)) e

mark-plus : (b : Bool) → (mark b == b'+') ≡ b
mark-plus true = refl
mark-plus false = refl

some-object :
    (cfg : MonitorConfig) (text : Bytes)
    → toy_encode cfg ≡ some text
    → (rest : Bytes) × (text ≡ b'{' ∷ rest)
some-object cfg text e = (mark cfg.allow_unauthenticated ∷ (cfg.auth_key ++ b'}' ∷ []), cc e)

toy_decodes :
    (cfg : MonitorConfig) (text : Bytes)
    → All IsAscii cfg.auth_key
    → toy_encode cfg ≡ some text
    → toy_decode (text ++ b'\n' ∷ []) ≡ some cfg
unfolding toy_decode
toy_decodes cfg text h e =
    let whole : b'{' ∷ mark cfg.allow_unauthenticated ∷ (cfg.auth_key ++ b'}' ∷ []) ≡ text = cc e in
    subst (λ t. toy_decode (t ++ b'\n' ∷ []) ≡ some cfg) whole
      (rw
        (
          append_assoc cfg.auth_key (b'}' ∷ []) (b'\n' ∷ []),
          strip_end-append cfg.auth_key h,
          mark-plus cfg.allow_unauthenticated,
        )
        refl)

with_mark-bytes :
    (m : ℕ) (o : Option Bytes) (cfg : MonitorConfig)
    → ((key : Bytes) → o ≡ some key → All IsByte key)
    → with_mark m o ≡ some cfg
    → All IsByte cfg.auth_key
with_mark-bytes m none cfg h e = cc e
with_mark-bytes m (some key) cfg h e =
    let same_key : key ≡ cfg.auth_key = ground (arith, e) in
    subst (All IsByte) same_key (h key refl)

toy_key_bytes :
    (text : Bytes) (cfg : MonitorConfig) → toy_decode text ≡ some cfg → All IsByte cfg.auth_key
unfolding toy_decode
toy_key_bytes [] cfg e = cc e
toy_key_bytes (c ∷ []) cfg e = cc e
toy_key_bytes (c ∷ m ∷ s) cfg e = elim (Bool-cases (c == b'{')) [
  | inl q ↦ with_mark-bytes m (strip_end s) cfg (strip_end-bytes s) (rw q at e)
  | inr q ↦ cc (rw q at e)
]

toy_codec-IsCodec : IsCodec toy_codec
unfolding toy_decode
toy_codec-IsCodec = record {
  object = some-object;
  decodes = toy_decodes;
  key_bytes = toy_key_bytes;
}

abbrev path : Bytes
path = codes "/etc/espns.json"

abbrev sys : System
sys = record {
  config_variable = path;
  key_variable = none;
  allow_variable = some (codes "false");
  executable = none;
  random = some (codes "0123456789abcdef0123456789abcdef");
}

sys-IsRandom : IsRandom sys
sys-IsRandom raw e =
    let same_raw : codes "0123456789abcdef0123456789abcdef" ≡ raw = cc e in
    subst (All IsByte) same_raw (omega arith)

abbrev old_file : File
old_file = record { bytes = codes "{-an old key of 20 b}\n"; mode = 420 }

-- Both renames fail, and the removal between them does not.
abbrev unlucky : Disk
unlucky = record {
  files = (path, old_file) ∷ [];
  faults = none ∷ none ∷ none ∷ some (broken 0 17) ∷ none ∷ some (broken 0 5) ∷ [];
}

abbrev new_cfg : MonitorConfig
new_cfg = record { auth_key = codes "a new key of 20 byte"; allow_unauthenticated = false }

write_monitor_config-Saved_example :
    Saved toy_codec unlucky path new_cfg (write_monitor_config toy_codec unlucky path new_cfg)
write_monitor_config-Saved_example = write_monitor_config-Saved toy_codec unlucky path new_cfg

config_is_lost : lookup path (write_monitor_config toy_codec unlucky path new_cfg).0.files ≡ none
unfolding write_monitor_config store_config replace_config replace_anyway rename_again write_file
    chmod remove rename mkdir_all lookup insert delete same trim_space
config_is_lost = refl

write_monitor_config-works_example :
    let r = write_monitor_config toy_codec (healthy ((path, old_file) ∷ [])) path new_cfg in
    (r.1 ≡ none)
    × (r.0.faults ≡ [])
    × (lookup path r.0.files
        ≡ some (record { bytes = codes "{-a new key of 20 byte}\n"; mode = private_mode }))
write_monitor_config-works_example =
    write_monitor_config-works toy_codec ((path, old_file) ∷ []) path
      (codes "{-a new key of 20 byte}") new_cfg (unfold same in unfold trim_space in refl) refl

abbrev old_disk : Disk
old_disk = healthy ((path, old_file) ∷ [])

abbrev old_settings : AuthSettings
old_settings = record {
  key = codes "an old key of 20 b";
  allow_unauthenticated = false;
  source = path;
}

old_loaded : (load_auth_settings toy_codec sys old_disk).1 ≡ loaded old_settings
unfolding load_auth_settings resolve_auth_config_path read_monitor_config read_file lookup
    read_outcome trim_bom toy_decode strip_end keep_byte settings_from_config and_variables
    with_variables parse_bool same trim_space
old_loaded = refl

load_auth_settings-Over_example :
    (file : AuthSettings) × Base toy_codec sys old_disk file × Over sys file old_settings
load_auth_settings-Over_example =
    load_auth_settings-Over toy_codec sys old_disk old_settings old_loaded

abbrev header : Bytes
header = codes "ESPNetworkSerialConfig.h"

abbrev foreign_disk : Disk
foreign_disk = healthy ((header, record { bytes = codes "#pragma once\n"; mode = 420 }) ∷ [])

foreign_disk-Foreign : Foreign foreign_disk header
unfolding lookup same contains has_prefix
foreign_disk-Foreign = record {
  file = record { bytes = codes "#pragma once\n"; mode = 420 };
  at = refl;
  unmarked = refl;
}

write_managed_firmware_config-Foreign_example :
    (write_managed_firmware_config foreign_disk header old_settings).0.files ≡ foreign_disk.files
write_managed_firmware_config-Foreign_example =
    write_managed_firmware_config-Foreign foreign_disk header old_settings foreign_disk-Foreign

write_managed_firmware_config-WrittenWell_example :
    WrittenWell header old_settings.key
      (write_managed_firmware_config (healthy []) header old_settings)
write_managed_firmware_config-WrittenWell_example =
    write_managed_firmware_config-WrittenWell (healthy []) header old_settings (omega arith)

abbrev first : Disk × Provisioned
first = provision_auth_config toy_codec sys (healthy []) false

abbrev is_provisioned : Provisioned → Bool
is_provisioned (provisioned a changed) = changed
is_provisioned (provision_error e) = false

abbrev settings_of : Provisioned → AuthSettings
settings_of (provisioned a changed) = a
settings_of (provision_error e) = old_settings

is_provisioned-provisioned :
    (p : Provisioned) → is_provisioned p ≡ true → p ≡ provisioned (settings_of p) true
is_provisioned-provisioned (provisioned a changed) e = rw e refl
is_provisioned-provisioned (provision_error x) e = cc e

first_is_provisioned : is_provisioned first.1 ≡ true
unfolding provision_auth_config provision_read generate_config write_monitor_config store_config
    replace_config replace_anyway write_file chmod remove rename mkdir_all lookup insert delete same
    trim_space read_monitor_config read_outcome read_file resolve_auth_config_path
    generate_auth_key_hex hex_encode settings_from_config
first_is_provisioned = refl

provision_auth_config-again_example :
    (load_persistent_auth_settings toy_codec sys (healthy first.0.files)
      ≡ (healthy first.0.files, loaded (settings_of first.1)))
    × (provision_auth_config toy_codec sys (healthy first.0.files) false
        ≡ (healthy first.0.files, provisioned (settings_of first.1) false))
provision_auth_config-again_example =
    provision_auth_config-again toy_codec sys (healthy []) first.0 false (settings_of first.1) true
      toy_codec-IsCodec sys-IsRandom
      (ap (λ p. (first.0, p)) (is_provisioned-provisioned first.1 first_is_provisioned))

header-ne-path : header ≢ resolve_auth_config_path toy_codec sys
unfolding resolve_auth_config_path same trim_space
header-ne-path e = ground (arith, e)

run_auth_provisioning-Agrees_example :
    Agrees toy_codec sys header (run_auth_provisioning toy_codec sys (healthy []) true false header)
run_auth_provisioning-Agrees_example =
    run_auth_provisioning-Agrees toy_codec sys (healthy []) true false header toy_codec-IsCodec
      sys-IsRandom header-ne-path (unfold trim_space in unfold same in refl)
