-- ===== src/Os/Laws.antt =====
-- What the files are after each call.
use espnetwork_serial.Prelude.{
  ℕ, ◌≡◌, ◌≢◌, refl, List, [], ◌∷◌, none, some, if◌then◌else◌, arith, Option-cases, inl, inr, ◌⊎◌,
}
use espnetwork_serial.Prelude.Bytes.{Bytes, same, same_iff}
use espnetwork_serial.Os.Files.{
  OsError, not_exist, File, Disk, lookup, insert, delete, write_file, chmod, remove, rename,
  mkdir_all, read_file, contents, unread, written, next_fault,
}

pub lookup-insert :
    (p r : Bytes) (f : File) (fs : List (Bytes × File))
    → lookup r (insert p f fs) ≡ (if same p r then some f else lookup r fs)
unfolding lookup insert
lookup-insert p r f [] = refl
lookup-insert p r f ((q, g) ∷ fs) =
    ground (arith, same_iff p r, same_iff q p, same_iff q r, lookup-insert p r f fs)

pub lookup-delete :
    (p r : Bytes) (fs : List (Bytes × File))
    → lookup r (delete p fs) ≡ (if same p r then none else lookup r fs)
unfolding lookup delete
lookup-delete p r [] = ground arith
lookup-delete p r ((q, g) ∷ fs) =
    ground (arith, same_iff p r, same_iff q p, same_iff q r, lookup-delete p r fs)

lookup-insert_other :
    (p r : Bytes) (f : File) (fs : List (Bytes × File))
    → p ≢ r
    → lookup r (insert p f fs) ≡ lookup r fs
lookup-insert_other p r f fs ne = ground (arith, same_iff p r, lookup-insert p r f fs)

pub lookup-insert_self :
    (p : Bytes) (f : File) (fs : List (Bytes × File)) → lookup p (insert p f fs) ≡ some f
lookup-insert_self p f fs = ground (arith, same_iff p p, lookup-insert p p f fs)

lookup-delete_other :
    (p r : Bytes) (fs : List (Bytes × File)) → p ≢ r → lookup r (delete p fs) ≡ lookup r fs
lookup-delete_other p r fs ne = ground (arith, same_iff p r, lookup-delete p r fs)

lookup-delete_self : (p : Bytes) (fs : List (Bytes × File)) → lookup p (delete p fs) ≡ none
lookup-delete_self p fs = ground (arith, same_iff p p, lookup-delete p p fs)

ruleset files_laws =
    (arith, lookup-insert_other, lookup-insert_self, lookup-delete_other, lookup-delete_self)

-- Every call leaves the other files alone.
module _ (d : Disk) (p : Bytes) (r : Bytes) (ne : p ≢ r) where
  pub write_file-other :
      (bytes : Bytes) (mode : ℕ) → lookup r (write_file d p bytes mode).0.files ≡ lookup r d.files
  unfolding write_file
  write_file-other bytes mode = grind files_laws

  pub chmod-other : (mode : ℕ) → lookup r (chmod d p mode).0.files ≡ lookup r d.files
  unfolding chmod
  chmod-other mode = grind files_laws

  pub remove-other : lookup r (remove d p).0.files ≡ lookup r d.files
  unfolding remove
  remove-other = grind files_laws

  pub rename-other : (q : Bytes) → q ≢ r → lookup r (rename d p q).0.files ≡ lookup r d.files
  unfolding rename
  rename-other q ne' = grind files_laws

pub mkdir_all-files : (d : Disk) → (mkdir_all d).0.files ≡ d.files
unfolding mkdir_all
mkdir_all-files d = grind files_laws

module _ (d : Disk) (p : Bytes) where
  pub write_file_self :
      (bytes : Bytes) (mode : ℕ)
      → (write_file d p bytes mode).1 ≡ none
      → (f : File) × (lookup p (write_file d p bytes mode).0.files ≡ some f) × (f.bytes ≡ bytes)
  unfolding write_file
  write_file_self bytes mode ok =
      (written (lookup p d.files) bytes mode, grind files_laws, grind files_laws)

  pub chmod_self :
      (mode : ℕ) (f : File)
      → lookup p d.files ≡ some f
      → (f' : File) × (lookup p (chmod d p mode).0.files ≡ some f') × (f'.bytes ≡ f.bytes)
  unfolding chmod
  chmod_self mode f e = elim (Option-cases (next_fault d.faults)) [
    | inl fine ↦ (record f { mode = mode }, grind files_laws, refl)
    | inr (x, q) ↦ (f, grind files_laws, refl)
  ]

  -- A removal leaves the file out, unless it failed for another reason than that there was none.
  pub remove_self :
      ((remove d p).1 ≡ none) ⊎ ((remove d p).1 ≡ some not_exist)
      → lookup p (remove d p).0.files ≡ none
  unfolding remove
  remove_self (inl e) = grind files_laws
  remove_self (inr e) = grind files_laws

  pub remove-failed : (x : OsError) → (remove d p).1 ≡ some x → (remove d p).0.files ≡ d.files
  unfolding remove
  remove-failed x e = grind files_laws

  pub rename-moved :
      (q : Bytes) (f : File)
      → p ≢ q
      → lookup p d.files ≡ some f
      → (rename d p q).1 ≡ none
      → (lookup q (rename d p q).0.files ≡ some f) × (lookup p (rename d p q).0.files ≡ none)
  unfolding rename
  rename-moved q f ne e ok = grind files_laws

  pub rename-failed :
      (q : Bytes) (x : OsError) → (rename d p q).1 ≡ some x → (rename d p q).0.files ≡ d.files
  unfolding rename
  rename-failed q x e = grind files_laws

pub read_file-files : (d : Disk) (p : Bytes) → (read_file d p).0.files ≡ d.files
unfolding read_file
read_file-files d p = refl

-- What is read is what the file holds; that it is missing is said only if it is.
pub read_file-contents :
    (d : Disk) (p text : Bytes)
    → (read_file d p).1 ≡ contents text
    → (f : File) × (lookup p d.files ≡ some f) × (f.bytes ≡ text)
unfolding read_file
read_file-contents d p text e = elim (Option-cases (lookup p d.files)) [
  | inl q ↦ absurd (ground (arith, q))
  | inr (f, q) ↦ (f, q, ground (arith, q))
]

pub read_file-not_exist :
    (d : Disk) (p : Bytes) → (read_file d p).1 ≡ unread not_exist → lookup p d.files ≡ none
unfolding read_file
read_file-not_exist d p e = ground arith

pub read_file-found :
    (d : Disk) (p : Bytes) (f : File)
    → next_fault d.faults ≡ none
    → lookup p d.files ≡ some f
    → (read_file d p).1 ≡ contents f.bytes
unfolding read_file
read_file-found d p f fine e = ground (arith, fine, e)

pub read_file-missing :
    (d : Disk) (p : Bytes)
    → next_fault d.faults ≡ none
    → lookup p d.files ≡ none
    → (read_file d p).1 ≡ unread not_exist
unfolding read_file
read_file-missing d p fine e = ground (arith, fine, e)
