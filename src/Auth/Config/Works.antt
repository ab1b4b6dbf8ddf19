-- ===== src/Auth/Config/Works.antt =====
-- `writeMonitorConfig` when no call fails.
use espnetwork_serial.Prelude.{ℕ, Option, ◌≡◌, refl, false, [], ◌∷◌, ◌++◌, List, none, some}
use espnetwork_serial.Prelude.Bytes.{Bytes, same}
use espnetwork_serial.Prelude.Text.{trim_space}
use espnetwork_serial.Os.{
  File, Disk, lookup, insert, delete, written, write_file, chmod, rename, mkdir_all,
  lookup-insert_self,
}
use espnetwork_serial.Auth.Settings.{MonitorConfig}
use espnetwork_serial.Auth.Config.Defs.{
  Codec, private_mode, temp_path, replace_config, store_config, write_monitor_config,
}

-- A disk with these files, on which no call fails.
abbrev pub healthy : List (Bytes × File) → Disk
healthy fs = record { files = fs; faults = [] }

module _ (fs : List (Bytes × File)) (p : Bytes) where
  write_file-healthy :
      (bytes : Bytes) (mode : ℕ)
      → write_file (healthy fs) p bytes mode
        ≡ (healthy (insert p (written (lookup p fs) bytes mode) fs), none)
  unfolding write_file
  write_file-healthy bytes mode = refl

  chmod-healthy :
      (mode : ℕ) (f : File)
      → lookup p fs ≡ some f
      → chmod (healthy fs) p mode ≡ (healthy (insert p (record f { mode = mode }) fs), none)
  unfolding chmod
  chmod-healthy mode f e = rw (chmod, e) refl

  rename-healthy :
      (q : Bytes) (f : File)
      → lookup p fs ≡ some f
      → rename (healthy fs) p q ≡ (healthy (insert q f (delete p fs)), none)
  unfolding rename
  rename-healthy q f e = rw (rename, e) refl

mkdir_all-healthy : (fs : List (Bytes × File)) → mkdir_all (healthy fs) ≡ (healthy fs, none)
unfolding mkdir_all
mkdir_all-healthy fs = refl

abbrev private_file : Bytes → File
private_file text = record { bytes = text; mode = private_mode }

-- The files after the temporary file has been written and made private.
abbrev with_temp : List (Bytes × File) → Bytes → Bytes → List (Bytes × File)
with_temp fs path text =
    insert (temp_path path) (private_file text)
      (insert (temp_path path) (written (lookup (temp_path path) fs) text private_mode) fs)

written-bytes :
    (o : Option File) (text : Bytes)
    → record (written o text private_mode) { mode = private_mode } ≡ private_file text
written-bytes none text = refl
written-bytes (some f) text = refl

-- The files at the end.
abbrev with_config : List (Bytes × File) → Bytes → Bytes → List (Bytes × File)
with_config fs path text =
    insert path (private_file text)
      (insert path (private_file text) (delete (temp_path path) (with_temp fs path text)))

replace_config-works :
    (fs : List (Bytes × File)) (path text : Bytes)
    → replace_config (healthy (with_temp fs path text)) path
      ≡ (healthy (with_config fs path text), none)
unfolding replace_config
replace_config-works fs path text =
    let moved =
      rename-healthy (with_temp fs path text) (temp_path path) path (private_file text)
        (lookup-insert_self (temp_path path) (private_file text) _) in
    rw (replace_config, moved)
      (rw
        (
          moved,
          chmod-healthy _ path private_mode (private_file text) (
              lookup-insert_self path (private_file text)
                (delete (temp_path path) (with_temp fs path text))),
        )
        refl)

store_config-works :
    (fs : List (Bytes × File)) (path text : Bytes)
    → store_config (healthy fs) path text ≡ (healthy (with_config fs path text), none)
unfolding store_config
store_config-works fs path text =
    let old = written (lookup (temp_path path) fs) text private_mode in
    let made = write_file-healthy fs (temp_path path) text private_mode in
    let secured =
      chmod-healthy (insert (temp_path path) old fs) (temp_path path) private_mode old
        (lookup-insert_self (temp_path path) old fs) in
    rw (store_config, made)
      (rw (made, secured)
        (rw (made, secured, written-bytes (lookup (temp_path path) fs) text)
          (replace_config-works fs path text)))

-- When no call fails, writing a configuration succeeds, and the file holds the encoded
-- configuration and a line feed, for the owner alone to read, whatever stood there before.
pub write_monitor_config-works :
    (codec : Codec) (fs : List (Bytes × File)) (path text : Bytes) (cfg : MonitorConfig)
    → same (trim_space path) [] ≡ false
    → codec.encode cfg ≡ some text
    → let r = write_monitor_config codec (healthy fs) path cfg in
      (r.1 ≡ none)
      × (r.0.faults ≡ [])
      × (lookup path r.0.files ≡ some (record { bytes = text ++ b'\n' ∷ []; mode = private_mode }))
unfolding write_monitor_config
write_monitor_config-works codec fs path text cfg blank e =
    rw (write_monitor_config, blank, mkdir_all-healthy fs, e)
      (rw (mkdir_all-healthy fs, store_config-works fs path (text ++ b'\n' ∷ []))
        (refl, refl, lookup-insert_self path (private_file (text ++ b'\n' ∷ [])) _))
