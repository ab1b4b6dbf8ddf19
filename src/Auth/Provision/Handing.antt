-- ===== src/Auth/Provision/Handing.antt =====
-- The host's configuration file and the header file of the firmware after `runAuthProvisioning`.
use espnetwork_serial.Prelude.{
  ◌≡◌, ◌≢◌, refl, ◌∙◌, ap, Bool, true, false, ◌||◌, List, [], none, some, All, arith, Bool-cases,
  Option-cases, inl, inr,
}
use espnetwork_serial.Prelude.Bytes.{Bytes, IsByte, same}
use espnetwork_serial.Prelude.Text.{trim_space}
use espnetwork_serial.Os.{
  not_exist, permission, other_error, Disk, lookup, ReadOutcome, contents, unread, read_file,
  read_file-files, read_file-not_exist, read_file-missing,
}
use espnetwork_serial.Auth.Settings.{
  AuthSettings, enabled, MonitorConfig, settings_from_config, check_key,
}
use espnetwork_serial.Auth.Config.{
  Codec, System, resolve_auth_config_path, trim_bom, ConfigRead, config, no_config, config_error,
  read_monitor_config, read_outcome, parsed, Loaded, loaded, load_error, loaded_from, from_config,
  no_settings, load_persistent_auth_settings, healthy,
}
use espnetwork_serial.Auth.Firmware.{
  FirmwareResult, done, firmware_error, write_managed_firmware_config,
  write_managed_firmware_config-other, Defines, WrittenWell,
  write_managed_firmware_config-WrittenWell, write_managed_firmware_config-done,
}
use espnetwork_serial.Auth.Provision.Defs.{
  Provisioned, provisioned, provision_error, provisioned_from, obtain_settings, Message, Handled,
  not_handled, handled, firmware_message, provision_firmware, after_provision,
  run_auth_provisioning,
}
use espnetwork_serial.Auth.Provision.Again.{
  IsCodec, IsRandom, Holds, read-Holds, Backed, IsBacked, provision_auth_config-IsBacked,
  Backed-from_config, not_blank,
}

settings_from_config-key :
    (path : Bytes) (cfg : MonitorConfig) (a : AuthSettings)
    → loaded_from (settings_from_config path cfg) ≡ loaded a
    → a.key ≡ cfg.auth_key
unfolding settings_from_config check_key
settings_from_config-key path cfg a e = ground (arith, e)

read_outcome-no_config :
    (codec : Codec) (path : Bytes) (o : ReadOutcome)
    → read_outcome codec path o ≡ no_config
    → o ≡ unread not_exist
unfolding read_outcome
read_outcome-no_config codec path (contents text) e =
    elim (Option-cases (codec.decode (trim_bom text))) [
      | inl q ↦ cc (ap (parsed path) q, e)
      | inr (cfg, q) ↦ cc (ap (parsed path) q, e)
    ]
read_outcome-no_config codec path (unread not_exist) e = refl
read_outcome-no_config codec path (unread permission) e = cc e
read_outcome-no_config codec path (unread (other_error n)) e = cc e

module _ (codec : Codec) (sys : System) where
  abbrev conf : Bytes
  conf = resolve_auth_config_path codec sys

  -- The settings are those of the file, or there is no file.
  data Kept (d : Disk) (a : AuthSettings) : Type 0 where
    backed : Backed codec sys d a → Kept d a
    absent :
        lookup conf d.files ≡ none → a ≡ no_settings → same (trim_space conf) [] ≡ false → Kept d a

  Kept-load :
      (d : Disk) (a : AuthSettings)
      → Kept d a
      → load_persistent_auth_settings codec sys (healthy d.files) ≡ (healthy d.files, loaded a)
  unfolding load_persistent_auth_settings read_monitor_config
  Kept-load d a (backed b) = Backed-from_config codec sys d a b
  Kept-load d a (absent e q path) =
      rw
        (
          load_persistent_auth_settings,
          not_blank conf path,
          path,
          read_file-missing (healthy d.files) conf refl e,
          q,
        )
        (unfold read_file in unfold read_outcome in refl)

  Kept-move :
      (d d' : Disk) (a : AuthSettings)
      → lookup conf d'.files ≡ lookup conf d.files
      → Kept d a
      → Kept d' a
  Kept-move d d' a same_file (backed b) = backed (record {
    cfg = b.cfg;
    holds = record { file = b.holds.file; at = same_file ∙ b.holds.at; reads = b.holds.reads };
    gives = b.gives;
    path = b.path;
  })
  Kept-move d d' a same_file (absent e q path) = absent (same_file ∙ e) q path

  Kept-bytes : (d : Disk) (a : AuthSettings) → IsCodec codec → Kept d a → All IsByte a.key
  Kept-bytes d a laws (backed b) =
      rw (settings_from_config-key conf b.cfg a b.gives)
        (laws.key_bytes (trim_bom b.holds.file.bytes) b.cfg b.holds.reads)
  Kept-bytes d a laws (absent e q path) = rw q tt

  abbrev IsKept : Disk × Provisioned → Type 0
  IsKept (d, provisioned a changed) = Kept d a
  IsKept (d, provision_error e) = Unit

  IsBacked-IsKept : (d : Disk) (p : Provisioned) → IsBacked codec sys (d, p) → IsKept (d, p)
  IsBacked-IsKept d (provisioned a changed) b = backed b
  IsBacked-IsKept d (provision_error e) b = tt

  config-IsKept :
      (d : Disk) (cfg : MonitorConfig) (l : Loaded)
      → same (trim_space conf) [] ≡ false
      → Holds codec d conf cfg
      → loaded_from (settings_from_config conf cfg) ≡ l
      → IsKept (d, provisioned_from l false)
  config-IsKept d cfg (loaded a) path h e =
      backed (record { cfg = cfg; holds = h; gives = e; path = path })
  config-IsKept d cfg (load_error x) path h e = tt

  read-IsKept :
      (d : Disk) (read : ConfigRead)
      → same (trim_space conf) [] ≡ false
      → ((cfg : MonitorConfig) → read ≡ config cfg → Holds codec d conf cfg)
      → (read ≡ no_config → lookup conf d.files ≡ none)
      → IsKept (d, provisioned_from (from_config conf read) false)
  read-IsKept d (config cfg) path h gone = config-IsKept d cfg _ path (h cfg refl) refl
  read-IsKept d no_config path h gone = absent (gone refl) refl path
  read-IsKept d (config_error e) path h gone = tt

  load-IsKept :
      (d : Disk)
      → let (d', l) = load_persistent_auth_settings codec sys d in
        IsKept (d', provisioned_from l false)
  unfolding load_persistent_auth_settings read_monitor_config
  load-IsKept d = elim (Bool-cases (same conf [])) [
    | inl q ↦ rw q tt
    | inr q ↦ elim (Bool-cases (same (trim_space conf) [])) [
      | inl q' ↦ rw (q, q') tt
      | inr q' ↦
          rw (q, q')
            (read-IsKept (read_file d conf).0 (read_outcome codec conf (read_file d conf).1) q'
              (λ cfg e. read-Holds codec d conf cfg e)
              (λ e.
                ap (lookup conf) (read_file-files d conf)
                ∙ read_file-not_exist d conf (read_outcome-no_config codec conf _ e)))
    ]
  ]

  obtain_settings-IsKept :
      (d : Disk) (provision regenerate : Bool)
      → IsCodec codec
      → IsRandom sys
      → IsKept (obtain_settings codec sys d provision regenerate)
  unfolding obtain_settings
  obtain_settings-IsKept d provision regenerate laws random =
      elim (Bool-cases (provision || regenerate)) [
        | inl q ↦ rw q (
            IsBacked-IsKept _ _ (provision_auth_config-IsBacked codec sys d regenerate laws random))
        | inr q ↦ rw q (load-IsKept d)
      ]

-- The settings of the host and those of the firmware, if both are set up.
abbrev pub Agrees : Codec → System → Bytes → Disk × Handled → Type 0
Agrees codec sys firmware (d, handled ms none) =
    (a : AuthSettings) × (load_persistent_auth_settings codec sys (healthy d.files)
      ≡ (healthy d.files, loaded a))
    × (enabled a ≡ true → Defines d firmware a.key)
Agrees codec sys firmware (d, handled ms (some e)) = Unit
Agrees codec sys firmware (d, not_handled) = Unit

firmware_message-Agrees :
    (codec : Codec) (sys : System) (firmware : Bytes) (d : Disk) (a : AuthSettings)
    (ms : List Message) (r : FirmwareResult)
    → Kept codec sys d a
    → WrittenWell firmware a.key (d, r)
    → (enabled a ≡ true → r ≢ done false)
    → Agrees codec sys firmware (d, firmware_message firmware a r ms)
firmware_message-Agrees codec sys firmware d a ms (firmware_error e) k w h = tt
firmware_message-Agrees codec sys firmware d a ms (done true) k w h =
    (a, Kept-load codec sys d a k, λ on. w)
firmware_message-Agrees codec sys firmware d a ms (done false) k w h =
    elim (Bool-cases (enabled a)) [
      | inl on ↦ absurd (h on refl)
      | inr off ↦ rw off (a, Kept-load codec sys d a k, λ on. cc (on, off))
    ]

after_provision-Agrees :
    (codec : Codec) (sys : System) (firmware : Bytes) (speaks regenerate : Bool)
    (r : Disk × Provisioned)
    → IsCodec codec
    → firmware ≢ resolve_auth_config_path codec sys
    → same (trim_space firmware) [] ≡ false
    → IsKept codec sys r
    → Agrees codec sys firmware (after_provision codec sys speaks regenerate firmware r)
unfolding after_provision provision_firmware
after_provision-Agrees codec sys firmware speaks regenerate (d, provision_error e) laws ne path k =
    tt
after_provision-Agrees codec sys firmware speaks regenerate (d, provisioned a changed) laws ne path
      k =
    let k' =
      Kept-move codec sys d (write_managed_firmware_config d firmware a).0 a
        (write_managed_firmware_config-other d firmware a (resolve_auth_config_path codec sys) ne)
        k in
    rw path (
      firmware_message-Agrees codec sys firmware (write_managed_firmware_config d firmware a).0 a _
        (write_managed_firmware_config d firmware a).1 k'
        (write_managed_firmware_config-WrittenWell d firmware a (Kept-bytes codec sys d a laws k))
        (write_managed_firmware_config-done d firmware a))

-- After the options of the installer were handled with no error, and a path for the header file was
-- given that is not that of the configuration file: the settings that the monitor loads from its
-- configuration file are those that the firmware was given. If they have a key, the header file
-- defines it by a literal that C reads as that key.
pub run_auth_provisioning-Agrees :
    (codec : Codec) (sys : System) (d : Disk) (provision regenerate : Bool) (firmware : Bytes)
    → IsCodec codec
    → IsRandom sys
    → firmware ≢ resolve_auth_config_path codec sys
    → same (trim_space firmware) [] ≡ false
    → Agrees codec sys firmware (run_auth_provisioning codec sys d provision regenerate firmware)
unfolding run_auth_provisioning
run_auth_provisioning-Agrees codec sys d true true firmware laws random ne path = tt
run_auth_provisioning-Agrees codec sys d true false firmware laws random ne path =
    after_provision-Agrees codec sys firmware true false _ laws ne path
      (obtain_settings-IsKept codec sys d true false laws random)
run_auth_provisioning-Agrees codec sys d false true firmware laws random ne path =
    after_provision-Agrees codec sys firmware true true _ laws ne path
      (obtain_settings-IsKept codec sys d false true laws random)
run_auth_provisioning-Agrees codec sys d false false firmware laws random ne path = rw path (
    after_provision-Agrees codec sys firmware false false _ laws ne path
      (obtain_settings-IsKept codec sys d false false laws random))
