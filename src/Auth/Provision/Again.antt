-- ===== src/Auth/Provision/Again.antt =====
-- What is on the disk after the key was provided.
use espnetwork_serial.Prelude.{
  ℕ, ◌<◌, ◌≡◌, refl, sym, ◌∙◌, ap, subst, Bool, true, false, [], ◌∷◌, ◌++◌, Option, none, some, All,
  Bool-cases, Option-cases, inl, inr,
}
use espnetwork_serial.Prelude.Bytes.{Bytes, IsByte, same}
use espnetwork_serial.Prelude.Hex.{hex_encode, hex_encode-lt}
use espnetwork_serial.Prelude.Text.{trim_space}
use espnetwork_serial.Os.{
  not_exist, permission, other_error, File, Disk, lookup, ReadOutcome, contents, unread, read_file,
  read_file-files, read_file-contents, read_file-found,
}
use espnetwork_serial.Auth.Settings.{AuthSettings, MonitorConfig, settings_from_config}
use espnetwork_serial.Auth.Config.{
  Codec, System, ConfigError, resolve_auth_config_path, trim_bom, ConfigRead, config, no_config,
  config_error, read_monitor_config, read_outcome, parsed, Loaded, loaded, load_error, loaded_from,
  load_persistent_auth_settings, generate_auth_key_hex, write_monitor_config, HasText, Saved,
  write_monitor_config-Saved, healthy,
}
use espnetwork_serial.Auth.Provision.Defs.{
  Provisioned, provisioned, provision_error, provisioned_from, new_config, generate_config,
  provision_read, provision_auth_config,
}

abbrev pub IsAscii : ℕ → Type 0
IsAscii c = c < 128

-- What the program uses of encoding/json: a configuration with a key in ASCII is encoded as an
-- object, and is decoded as it was also with a line feed behind it; and strings consist of bytes.
pub record IsCodec (codec : Codec) : Type 0 where
  pub object :
      (cfg : MonitorConfig) (text : Bytes)
      → codec.encode cfg ≡ some text
      → (rest : Bytes) × (text ≡ b'{' ∷ rest)
  pub decodes :
      (cfg : MonitorConfig) (text : Bytes)
      → All IsAscii cfg.auth_key
      → codec.encode cfg ≡ some text
      → codec.decode (text ++ b'\n' ∷ []) ≡ some cfg
  pub key_bytes :
      (text : Bytes) (cfg : MonitorConfig) → codec.decode text ≡ some cfg → All IsByte cfg.auth_key

-- The file at the path reads as this configuration.
pub record Holds (codec : Codec) (d : Disk) (path : Bytes) (cfg : MonitorConfig) : Type 0 where
  pub file : File
  pub at : lookup path d.files ≡ some file
  pub reads : codec.decode (trim_bom file.bytes) ≡ some cfg

trim_bom-object : (rest : Bytes) → trim_bom (b'{' ∷ rest) ≡ b'{' ∷ rest
unfolding trim_bom
trim_bom-object [] = refl
trim_bom-object (b ∷ []) = refl
trim_bom-object (b ∷ c ∷ rest) = refl

HasText-Holds :
    (codec : Codec) (d : Disk) (path text : Bytes) (cfg : MonitorConfig)
    → IsCodec codec
    → All IsAscii cfg.auth_key
    → codec.encode cfg ≡ some text
    → HasText d path (text ++ b'\n' ∷ [])
    → Holds codec d path cfg
HasText-Holds codec d path text cfg laws ascii e h =
    let (rest, shape) = laws.object cfg text e in
    record {
      file = h.file;
      at = h.at;
      reads =
          ap (λ (t : Bytes). codec.decode (trim_bom t))
            (h.bytes ∙ ap (λ (t : Bytes). t ++ b'\n' ∷ []) shape)
          ∙ ap codec.decode (trim_bom-object (rest ++ b'\n' ∷ []))
          ∙ ap (λ (t : Bytes). codec.decode (t ++ b'\n' ∷ [])) (sym shape)
          ∙ laws.decodes cfg text ascii e;
    }

parsed-config :
    (path : Bytes) (cfg : MonitorConfig) (o : Option MonitorConfig)
    → parsed path o ≡ config cfg
    → o ≡ some cfg
parsed-config path cfg none e = cc e
parsed-config path cfg (some c) e = cc e

read_outcome-config :
    (codec : Codec) (path : Bytes) (cfg : MonitorConfig) (o : ReadOutcome)
    → read_outcome codec path o ≡ config cfg
    → (text : Bytes) × (o ≡ contents text) × (codec.decode (trim_bom text) ≡ some cfg)
unfolding read_outcome
read_outcome-config codec path cfg (contents text) e =
    (text, refl, parsed-config path cfg (codec.decode (trim_bom text)) e)
read_outcome-config codec path cfg (unread not_exist) e = cc e
read_outcome-config codec path cfg (unread permission) e = cc e
read_outcome-config codec path cfg (unread (other_error n)) e = cc e

pub read-Holds :
    (codec : Codec) (d : Disk) (path : Bytes) (cfg : MonitorConfig)
    → read_outcome codec path (read_file d path).1 ≡ config cfg
    → Holds codec (read_file d path).0 path cfg
read-Holds codec d path cfg e =
    let (text, o, decoded) = read_outcome-config codec path cfg (read_file d path).1 e in
    let (f, there, b) = read_file-contents d path text o in
    record {
      file = f;
      at = ap (lookup path) (read_file-files d path) ∙ there;
      reads = ap (λ (t : Bytes). codec.decode (trim_bom t)) b ∙ decoded;
    }

-- The settings are those of the configuration file.
pub record Backed (codec : Codec) (sys : System) (d : Disk) (a : AuthSettings) : Type 0 where
  pub cfg : MonitorConfig
  pub holds : Holds codec d (resolve_auth_config_path codec sys) cfg
  pub gives : loaded_from (settings_from_config (resolve_auth_config_path codec sys) cfg) ≡ loaded a
  pub path : same (trim_space (resolve_auth_config_path codec sys)) [] ≡ false

abbrev pub IsBacked : Codec → System → Disk × Provisioned → Type 0
IsBacked codec sys (d, provisioned a changed) = Backed codec sys d a
IsBacked codec sys (d, provision_error e) = Unit

-- What is assumed of the random bytes: that they are bytes.
abbrev pub IsRandom : System → Type 0
IsRandom sys = (raw : Bytes) → sys.random ≡ some raw → All IsByte raw

module _ (codec : Codec) (sys : System) where
  abbrev the_path : Bytes
  the_path = resolve_auth_config_path codec sys

  from_config-IsBacked :
      (d : Disk) (cfg : MonitorConfig) (changed : Bool) (l : Loaded)
      → same (trim_space the_path) [] ≡ false
      → Holds codec d the_path cfg
      → loaded_from (settings_from_config the_path cfg) ≡ l
      → IsBacked codec sys (d, provisioned_from l changed)
  from_config-IsBacked d cfg changed (loaded a) path h e = record {
    cfg = cfg;
    holds = h;
    gives = e;
    path = path;
  }
  from_config-IsBacked d cfg changed (load_error x) path h e = tt

  Saved-IsBacked :
      (d : Disk) (raw : Bytes) (r : Disk × Option ConfigError)
      → IsCodec codec
      → All IsByte raw
      → same (trim_space the_path) [] ≡ false
      → Saved codec d the_path (new_config (hex_encode raw)) r
      → IsBacked codec sys (elim r.1 [
        | some err ↦ (r.0, provision_error err)
        | none ↦ (
          r.0,
          provisioned_from
              (loaded_from (settings_from_config the_path (new_config (hex_encode raw))))
              true,
        )
      ])
  Saved-IsBacked d raw (d', some err) laws bytes path saved = tt
  Saved-IsBacked d raw (d', none) laws bytes path (text, e, h, _) =
      let cfg = new_config (hex_encode raw) in
      from_config-IsBacked d' cfg true (loaded_from (settings_from_config the_path cfg)) path
        (HasText-Holds codec d' the_path text cfg laws (hex_encode-lt raw bytes) e h) refl

  generate_config-IsBacked :
      (d : Disk)
      → IsCodec codec
      → IsRandom sys
      → same (trim_space the_path) [] ≡ false
      → IsBacked codec sys (generate_config codec sys d the_path)
  unfolding generate_config generate_auth_key_hex resolve_auth_config_path
  generate_config-IsBacked d laws random path = elim (Option-cases sys.random) [
    | inl q ↦ rw (generate_config, q) tt
    | inr (raw, q) ↦ subst (IsBacked codec sys) (sym (rw (generate_config, q) refl)) (
        Saved-IsBacked d raw (write_monitor_config codec d the_path (new_config (hex_encode raw)))
          laws (random raw q) path
          (write_monitor_config-Saved codec d the_path (new_config (hex_encode raw))))
  ]

  provision_read-IsBacked :
      (d : Disk) (force : Bool) (read : ConfigRead)
      → IsCodec codec
      → IsRandom sys
      → same (trim_space the_path) [] ≡ false
      → ((cfg : MonitorConfig) → read ≡ config cfg → Holds codec d the_path cfg)
      → IsBacked codec sys (provision_read codec sys d the_path force read)
  unfolding provision_read
  provision_read-IsBacked d force (config_error e) laws random path h = tt
  provision_read-IsBacked d force no_config laws random path h =
      generate_config-IsBacked d laws random path
  provision_read-IsBacked d false (config cfg) laws random path h =
      from_config-IsBacked d cfg false (loaded_from (settings_from_config the_path cfg)) path
        (h cfg refl) refl
  provision_read-IsBacked d true (config cfg) laws random path h =
      generate_config-IsBacked d laws random path

  -- Where the key was provided with no error, the configuration file holds the settings.
  pub provision_auth_config-IsBacked :
      (d : Disk) (force : Bool)
      → IsCodec codec
      → IsRandom sys
      → IsBacked codec sys (provision_auth_config codec sys d force)
  unfolding provision_auth_config read_monitor_config
  provision_auth_config-IsBacked d force laws random = elim (Bool-cases (same the_path [])) [
    | inl q ↦ rw q tt
    | inr q ↦ elim (Bool-cases (same (trim_space the_path) [])) [
      | inl q' ↦ rw (q, q') (unfold provision_read in tt)
      | inr q' ↦
          rw (q, q')
            (provision_read-IsBacked (read_file d the_path).0 force
              (read_outcome codec the_path (read_file d the_path).1) laws random q'
              (λ cfg e. read-Holds codec d the_path cfg e))
    ]
  ]

-- A disk on which the configuration file reads as these settings.
pub healthy_read :
    (codec : Codec) (d : Disk) (path : Bytes) (cfg : MonitorConfig)
    → Holds codec d path cfg
    → read_outcome codec path (read_file (healthy d.files) path).1 ≡ config cfg
unfolding read_outcome
healthy_read codec d path cfg h =
    ap (read_outcome codec path) (read_file-found (healthy d.files) path h.file refl h.at)
    ∙ ap (parsed path) h.reads

pub not_blank : (path : Bytes) → same (trim_space path) [] ≡ false → same path [] ≡ false
unfolding same trim_space
not_blank [] h = cc h
not_blank (c ∷ s) h = refl

-- The settings of the configuration file are what is read from it, when no call fails.
pub Backed-from_config :
    (codec : Codec) (sys : System) (d : Disk) (a : AuthSettings)
    → Backed codec sys d a
    → load_persistent_auth_settings codec sys (healthy d.files) ≡ (healthy d.files, loaded a)
unfolding load_persistent_auth_settings read_monitor_config
Backed-from_config codec sys d a b =
    let p = resolve_auth_config_path codec sys in
    rw
      (
        load_persistent_auth_settings,
        not_blank p b.path,
        b.path,
        healthy_read codec d p b.cfg b.holds,
      )
      (unfold read_file in rw b.gives refl)

-- Once a key was provided with no error, `loadPersistentAuthSettings` gives these settings, and
-- providing a key again gives them too, says that nothing is new, and leaves the disk as it is, as
-- long as no call fails.
pub provision_auth_config-again :
    (codec : Codec) (sys : System) (d d' : Disk) (force : Bool) (a : AuthSettings) (changed : Bool)
    → IsCodec codec
    → IsRandom sys
    → provision_auth_config codec sys d force ≡ (d', provisioned a changed)
    → (load_persistent_auth_settings codec sys (healthy d'.files) ≡ (healthy d'.files, loaded a))
      × (provision_auth_config codec sys (healthy d'.files) false
          ≡ (healthy d'.files, provisioned a false))
unfolding provision_auth_config read_monitor_config
provision_auth_config-again codec sys d d' force a changed laws random e =
    let p = resolve_auth_config_path codec sys in
    let b : Backed codec sys d' a =
      subst (IsBacked codec sys) e (provision_auth_config-IsBacked codec sys d force laws random) in
    (
      Backed-from_config codec sys d' a b,
      rw (provision_auth_config, not_blank p b.path, b.path, healthy_read codec d' p b.cfg b.holds)
          (unfold provision_read in unfold read_file in rw b.gives refl),
    )
