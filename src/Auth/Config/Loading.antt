-- ===== src/Auth/Config/Loading.antt =====
-- The variables of the environment over the configuration file.
use espnetwork_serial.Prelude.{
  ◌≤◌, ◌≡◌, refl, sym, ◌∙◌, ap, [], Option, none, some, length, arith, Option-cases, Bool-cases,
  inl, inr, ◌⊎◌,
}
use espnetwork_serial.Prelude.Bytes.{Bytes, same, same_iff}
use espnetwork_serial.Os.{Disk}
use espnetwork_serial.Auth.Settings.{
  AuthSettings, min_auth_key_bytes, max_auth_key_bytes, check_key,
}
use espnetwork_serial.Auth.Config.Defs.{
  Codec, System, resolve_auth_config_path, read_monitor_config, Loaded, loaded, load_error,
  loaded_from, from_config, no_settings, load_persistent_auth_settings, parse_bool, set_value,
  with_key, with_variables, and_variables, load_auth_settings,
}

-- The value of the variable if it is set, or else the other.
abbrev pub or_else {ℓ} : {A : Type ℓ} → Option A → A → A
or_else none v = v
or_else (some w) v = w

-- The settings are those of the file, but for the variables that are set.
pub record Over (sys : System) (file a : AuthSettings) : Type 0 where
  pub key : a.key ≡ or_else (set_value sys.key_variable) file.key
  pub allow :
      (set_value sys.allow_variable ≡ none × (a.allow_unauthenticated ≡ file.allow_unauthenticated))
      ⊎ ((text : Bytes) × (set_value sys.allow_variable ≡ some text)
          × (parse_bool text ≡ some a.allow_unauthenticated))
  pub bounds :
      (length a.key ≡ 0)
      ⊎ ((min_auth_key_bytes ≤ length a.key) × (length a.key ≤ max_auth_key_bytes))

record Checked (b a : AuthSettings) : Type 0 where
  key : a.key ≡ b.key
  allow : a.allow_unauthenticated ≡ b.allow_unauthenticated
  bounds :
      (length a.key ≡ 0)
      ⊎ ((min_auth_key_bytes ≤ length a.key) × (length a.key ≤ max_auth_key_bytes))

check_key-Checked : (b a : AuthSettings) → loaded_from (check_key b) ≡ loaded a → Checked b a
unfolding check_key
check_key-Checked b a e = record {
  key = ground (arith, e);
  allow = ground (arith, e);
  bounds = ground (arith, e);
}

with_key-key : (file : AuthSettings) (o : Option Bytes) → (with_key file o).key ≡ or_else o file.key
with_key-key file none = refl
with_key-key file (some text) = refl

with_key-allow :
    (file : AuthSettings) (o : Option Bytes)
    → (with_key file o).allow_unauthenticated ≡ file.allow_unauthenticated
with_key-allow file none = refl
with_key-allow file (some text) = refl

with_variables-Over :
    (sys : System) (file a : AuthSettings) → with_variables sys file ≡ loaded a → Over sys file a
unfolding with_variables
with_variables-Over sys file a e = elim (Option-cases (set_value sys.allow_variable)) [
  | inl q ↦
      let c = check_key-Checked _ a (rw (with_variables, q) at e) in
      record {
        key = c.key ∙ with_key-key file (set_value sys.key_variable);
        allow = inl (q, c.allow ∙ with_key-allow file (set_value sys.key_variable));
        bounds = c.bounds;
      }
  | inr (text, q) ↦ elim (Option-cases (parse_bool text)) [
    | inl q' ↦ cc (rw (with_variables, q, q') at e)
    | inr (allow, q') ↦
        let c = check_key-Checked _ a (rw (with_variables, q, q') at e) in
        record {
          key = c.key ∙ with_key-key file (set_value sys.key_variable);
          allow = inr (text, q, q' ∙ ap some (sym c.allow));
          bounds = c.bounds;
        }
  ]
]

and_variables-loaded :
    (sys : System) (l : Loaded) (a : AuthSettings)
    → and_variables sys l ≡ loaded a
    → (file : AuthSettings) × (l ≡ loaded file) × (with_variables sys file ≡ loaded a)
unfolding and_variables
and_variables-loaded sys (loaded file) a e = (file, refl, e)
and_variables-loaded sys (load_error x) a e = cc e

-- What the configuration file gives: its settings, or none if its place is not known.
abbrev pub Base : Codec → System → Disk → AuthSettings → Type 0
Base codec sys d file =
    ((resolve_auth_config_path codec sys ≡ []) × (file ≡ no_settings))
    ⊎ ((load_persistent_auth_settings codec sys d).1 ≡ loaded file)

-- The settings that the monitor starts with are those of the configuration file, but for the key
-- and the permission that the environment sets, if it sets them to more than white space; and they
-- hold no key, or one of 16 to 128 bytes.
pub load_auth_settings-Over :
    (codec : Codec) (sys : System) (d : Disk) (a : AuthSettings)
    → (load_auth_settings codec sys d).1 ≡ loaded a
    → (file : AuthSettings) × Base codec sys d file × Over sys file a
unfolding load_auth_settings load_persistent_auth_settings
load_auth_settings-Over codec sys d a e =
    let path = resolve_auth_config_path codec sys in
    let l = from_config path (read_monitor_config codec d path).1 in
    elim (Bool-cases (same path [])) [
      | inl q ↦ (
        no_settings,
        inl ((same_iff path []).0 q, refl),
        with_variables-Over sys no_settings a (rw (load_auth_settings, q) at e),
      )
      | inr q ↦
          let (file, from_file, over) =
            and_variables-loaded sys l a (rw (load_auth_settings, q) at e) in
          (
            file,
            inr (rw (load_persistent_auth_settings, q) from_file),
            with_variables-Over sys file a over,
          )
    ]
