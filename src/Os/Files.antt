-- ===== src/Os/Files.antt =====
-- The files of the system by path, with the calls of package os, and what may go wrong with them.
-- Directories have no content of their own here. A call that meets no fault does what it says.
use espnetwork_serial.Prelude.{ℕ, List, [], ◌∷◌, Option, none, some, take, if◌then◌else◌}
use espnetwork_serial.Prelude.Bytes.{Bytes, same}

-- `os.ErrNotExist`, `os.ErrPermission`, and the others by a number.
pub data OsError : Type 0 where
  not_exist permission : OsError
  other_error : ℕ → OsError

-- What goes wrong with one call: it is not permitted, or it fails, after `n` bytes if it writes.
-- That a file is missing is no fault, since it follows from the files.
pub data Fault : Type 0 where
  denied : Fault
  broken : ℕ → ℕ → Fault

abbrev pub fault_error : Fault → OsError
fault_error denied = permission
fault_error (broken n code) = other_error code

pub record File : Type 0 where
  pub bytes : Bytes
  pub mode : ℕ

-- With each call a fault or none; when there are no more, no call meets one.
pub record Disk : Type 0 where
  pub files : List (Bytes × File)
  pub faults : List (Option Fault)

unfoldable pub lookup : Bytes → List (Bytes × File) → Option File
lookup p [] = none
lookup p ((q, f) ∷ fs) = if same q p then some f else lookup p fs

unfoldable pub insert : Bytes → File → List (Bytes × File) → List (Bytes × File)
insert p f [] = (p, f) ∷ []
insert p f ((q, g) ∷ fs) = if same q p then (p, f) ∷ fs else (q, g) ∷ insert p f fs

unfoldable pub delete : Bytes → List (Bytes × File) → List (Bytes × File)
delete p [] = []
delete p ((q, g) ∷ fs) = let rest = delete p fs in if same q p then rest else (q, g) ∷ rest

abbrev pub next_fault : List (Option Fault) → Option Fault
next_fault [] = none
next_fault (f ∷ fs) = f

abbrev pub later_faults : List (Option Fault) → List (Option Fault)
later_faults [] = []
later_faults (f ∷ fs) = fs

-- The disk with other files, after one call.
abbrev pub after_call : Disk → List (Bytes × File) → Disk
after_call d files = record { files = files; faults = later_faults d.faults }

pub data ReadOutcome : Type 0 where
  contents : Bytes → ReadOutcome
  unread : OsError → ReadOutcome

-- `os.ReadFile`.
unfoldable pub read_file : Disk → Bytes → Disk × ReadOutcome
read_file d p = (
  after_call d d.files,
  elim (next_fault d.faults) [
    | some f ↦ unread (fault_error f)
    | none ↦ elim (lookup p d.files) [ none ↦ unread not_exist | some f ↦ contents f.bytes ]
  ],
)

-- The file that a write of these bytes makes. A file that is there keeps its mode.
abbrev pub written : Option File → Bytes → ℕ → File
written none bytes mode = record { bytes = bytes; mode = mode }
written (some f) bytes mode = record f { bytes = bytes }

-- `os.WriteFile`, which empties the file before it writes.
unfoldable pub write_file : Disk → Bytes → Bytes → ℕ → Disk × Option OsError
write_file d p bytes mode = elim (next_fault d.faults) [
  | none ↦ (after_call d (insert p (written (lookup p d.files) bytes mode) d.files), none)
  | some denied ↦ (after_call d d.files, some permission)
  | some (broken n code) ↦ (
    after_call d (insert p (written (lookup p d.files) (take n bytes) mode) d.files),
    some (other_error code),
  )
]

-- `os.Chmod`.
unfoldable pub chmod : Disk → Bytes → ℕ → Disk × Option OsError
chmod d p mode = elim (next_fault d.faults) [
  | some f ↦ (after_call d d.files, some (fault_error f))
  | none ↦ elim (lookup p d.files) [
    | none ↦ (after_call d d.files, some not_exist)
    | some f ↦ (after_call d (insert p (record f { mode = mode }) d.files), none)
  ]
]

-- `os.Remove`.
unfoldable pub remove : Disk → Bytes → Disk × Option OsError
remove d p = elim (next_fault d.faults) [
  | some f ↦ (after_call d d.files, some (fault_error f))
  | none ↦ elim (lookup p d.files) [
    | none ↦ (after_call d d.files, some not_exist)
    | some f ↦ (after_call d (delete p d.files), none)
  ]
]

-- `os.Rename`, which replaces the file `q`.
unfoldable pub rename : Disk → Bytes → Bytes → Disk × Option OsError
rename d p q = elim (next_fault d.faults) [
  | some f ↦ (after_call d d.files, some (fault_error f))
  | none ↦ elim (lookup p d.files) [
    | none ↦ (after_call d d.files, some not_exist)
    | some f ↦ (after_call d (insert q f (delete p d.files)), none)
  ]
]

-- `os.MkdirAll`.
unfoldable pub mkdir_all : Disk → Disk × Option OsError
mkdir_all d = elim (next_fault d.faults) [
  | some f ↦ (after_call d d.files, some (fault_error f))
  | none ↦ (after_call d d.files, none)
]
