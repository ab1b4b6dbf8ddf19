-- ===== src/Auth/Config/Writing.antt =====
-- What `writeMonitorConfig` leaves on the disk, whatever call fails.
use espnetwork_serial.Prelude.{
  ◌≡◌, ◌≢◌, refl, sym, ◌∙◌, ap, Bool, true, false, [], ◌∷◌, ◌++◌, Option, none, some, length,
  length-append, arith, Option-cases, Bool-cases, inl, inr, ◌⊎◌, if◌then◌else◌,
}
use espnetwork_serial.Prelude.Bytes.{Bytes, codes, same}
use espnetwork_serial.Prelude.Text.{trim_space}
use espnetwork_serial.Os.{
  OsError, not_exist, permission, other_error, File, Disk, lookup, write_file, chmod, remove,
  rename, mkdir_all, write_file-other, write_file_self, chmod-other, chmod_self, remove-other,
  remove_self, remove-failed, rename-moved, rename-failed, mkdir_all-files,
}
use espnetwork_serial.Auth.Settings.{MonitorConfig}
use espnetwork_serial.Auth.Config.Defs.{
  Codec, ConfigError, retry_failed, private_mode, temp_path, rename_again, is_obstacle,
  replace_anyway, replace_config, fatal, store_config, write_monitor_config,
}

pub temp_path-ne : (path : Bytes) → temp_path path ≢ path
temp_path-ne path e = omega (arith, ap length e, length-append path (codes ".tmp"))

-- The file has this content.
pub record HasText (d : Disk) (path text : Bytes) : Type 0 where
  pub file : File
  pub at : lookup path d.files ≡ some file
  pub bytes : file.bytes ≡ text

-- Whether the error says that the old file was removed and the new one did not take its place.
abbrev pub loses_config : ConfigError → Bool
loses_config (retry_failed e) = true
loses_config _ = false

-- From the disk `d`, writing `text` came to this.
abbrev pub Stored : Disk → Bytes → Bytes → Disk × Option ConfigError → Type 0
Stored d path text (d', none) = HasText d' path text × (lookup (temp_path path) d'.files ≡ none)
Stored d path text (d', some e) =
    lookup path d'.files ≡ (if loses_config e then none else lookup path d.files)

is_obstacle-true : (o : Option OsError) → is_obstacle o ≡ true → (x : OsError) × (o ≡ some x)
is_obstacle-true none h = cc h
is_obstacle-true (some x) h = (x, refl)

is_obstacle-false : (o : Option OsError) → is_obstacle o ≡ false → (o ≡ none) ⊎ (o ≡ some not_exist)
is_obstacle-false none h = inl refl
is_obstacle-false (some not_exist) h = inr refl
is_obstacle-false (some permission) h = cc h
is_obstacle-false (some (other_error n)) h = cc h

module _ (path text : Bytes) where
  abbrev tmp : Bytes
  tmp = temp_path path

  away : path ≢ tmp
  away e = temp_path-ne path (sym e)

  -- The temporary file took the place of the file.
  finished :
      (d d0 : Disk) (f : File)
      → f.bytes ≡ text
      → lookup path d.files ≡ some f
      → lookup tmp d.files ≡ none
      → Stored d0 path text ((chmod d path private_mode).0, none)
  finished d d0 f b e gone =
      let (f', e', same_bytes) = chmod_self d path private_mode f e in
      (
        record { file = f'; at = e'; bytes = same_bytes ∙ b },
        chmod-other d path tmp away private_mode ∙ gone,
      )

  rename_again-Stored :
      (d d0 : Disk) (f : File) (x : OsError)
      → f.bytes ≡ text
      → lookup tmp d.files ≡ some f
      → lookup path d.files ≡ none
      → Stored d0 path text (rename_again d path x)
  unfolding rename_again
  rename_again-Stored d d0 f x b e gone = elim (Option-cases (rename d tmp path).1) [
    | inr (again, q) ↦
        let same_files = rename-failed d tmp path again q in
        rw (rename_again, q)
          (remove-other (rename d tmp path).0 tmp path (temp_path-ne path)
            ∙ ap (lookup path) same_files
            ∙ gone)
    | inl q ↦
        let (there, left) = rename-moved d tmp path f (temp_path-ne path) e q in
        rw (rename_again, q) (finished (rename d tmp path).0 d0 f b there left)
  ]

  replace_anyway-Stored :
      (d d0 : Disk) (f : File) (x : OsError)
      → f.bytes ≡ text
      → lookup tmp d.files ≡ some f
      → lookup path d.files ≡ lookup path d0.files
      → Stored d0 path text (replace_anyway d path x)
  unfolding replace_anyway
  replace_anyway-Stored d d0 f x b e old = elim (Bool-cases (is_obstacle (remove d path).1)) [
    | inl q ↦
        let (err, q') = is_obstacle-true (remove d path).1 q in
        rw (replace_anyway, q)
          (remove-other (remove d path).0 tmp path (temp_path-ne path)
            ∙ ap (lookup path) (remove-failed d path err q')
            ∙ old)
    | inr q ↦
        rw (replace_anyway, q)
          (rename_again-Stored (remove d path).0 d0 f x b (remove-other d path tmp away ∙ e)
            (remove_self d path (is_obstacle-false (remove d path).1 q)))
  ]

  replace_config-Stored :
      (d d0 : Disk) (f : File)
      → f.bytes ≡ text
      → lookup tmp d.files ≡ some f
      → lookup path d.files ≡ lookup path d0.files
      → Stored d0 path text (replace_config d path)
  unfolding replace_config
  replace_config-Stored d d0 f b e old = elim (Option-cases (rename d tmp path).1) [
    | inr (err, q) ↦
        let files = rename-failed d tmp path err q in
        rw (replace_config, q)
          (replace_anyway-Stored (rename d tmp path).0 d0 f err b (ap (lookup tmp) files ∙ e)
            (ap (lookup path) files ∙ old))
    | inl q ↦
        let (there, left) = rename-moved d tmp path f (temp_path-ne path) e q in
        rw (replace_config, q) (finished (rename d tmp path).0 d0 f b there left)
  ]

  store_config-Stored :
      (d d0 : Disk)
      → lookup path d.files ≡ lookup path d0.files
      → Stored d0 path text (store_config d path text)
  unfolding store_config
  store_config-Stored d d0 old =
      let d1 = (write_file d tmp text private_mode).0 in
      let old1 = write_file-other d tmp path (temp_path-ne path) text private_mode ∙ old in
      let old2 = chmod-other d1 tmp path (temp_path-ne path) private_mode ∙ old1 in
      elim (Option-cases (write_file d tmp text private_mode).1) [
        | inr (err, q) ↦ rw (store_config, q) old1
        | inl q ↦
            let (f, there, b) = write_file_self d tmp text private_mode q in
            let (f', there', b') = chmod_self d1 tmp private_mode f there in
            elim (Option-cases (fatal (chmod d1 tmp private_mode).1)) [
              | inr (err, q') ↦
                  rw (store_config, q, q')
                    (remove-other (chmod d1 tmp private_mode).0 tmp path (temp_path-ne path) ∙ old2)
              | inl q' ↦
                  rw (store_config, q, q')
                    (replace_config-Stored (chmod d1 tmp private_mode).0 d0 f' (b' ∙ b) there' old2)
            ]
      ]

-- What writing a configuration came to.
abbrev pub Saved : Codec → Disk → Bytes → MonitorConfig → Disk × Option ConfigError → Type 0
Saved codec d path cfg (d', none) =
    (text : Bytes) × (codec.encode cfg ≡ some text)
    × HasText d' path (text ++ b'\n' ∷ [])
    × (lookup (temp_path path) d'.files ≡ none)
Saved codec d path cfg (d', some e) =
    lookup path d'.files ≡ (if loses_config e then none else lookup path d.files)

Stored-Saved :
    (codec : Codec) (d : Disk) (path text : Bytes) (cfg : MonitorConfig)
    (r : Disk × Option ConfigError)
    → codec.encode cfg ≡ some text
    → Stored d path (text ++ b'\n' ∷ []) r
    → Saved codec d path cfg r
Stored-Saved codec d path text cfg (d', none) e (h, gone) = (text, e, h, gone)
Stored-Saved codec d path text cfg (d', some x) e h = h

-- Whatever call of the system fails, and in whatever way: with no error the file holds the encoded
-- configuration and a line feed, and the temporary file is gone; with an error the file is what it
-- was, except where the error is that of the second rename: then the old file is lost.
pub write_monitor_config-Saved :
    (codec : Codec) (d : Disk) (path : Bytes) (cfg : MonitorConfig)
    → Saved codec d path cfg (write_monitor_config codec d path cfg)
unfolding write_monitor_config
write_monitor_config-Saved codec d path cfg = elim (Bool-cases (same (trim_space path) [])) [
  | inl q ↦ rw (write_monitor_config, q) refl
  | inr q ↦ elim (Option-cases (mkdir_all d).1) [
    | inr (err, q') ↦ rw (write_monitor_config, q, q') (ap (lookup path) (mkdir_all-files d))
    | inl q' ↦ elim (Option-cases (codec.encode cfg)) [
      | inl e ↦ rw (write_monitor_config, q, q', e) (ap (lookup path) (mkdir_all-files d))
      | inr (text, e) ↦
          rw (write_monitor_config, q, q', e)
            (Stored-Saved codec d path text cfg _ e (
              store_config-Stored path (text ++ b'\n' ∷ []) (mkdir_all d).0 d
                (ap (lookup path) (mkdir_all-files d))))
    ]
  ]
]
