-- ===== src/Fs.antt =====
-- src/kernel/fs/fs.c and src/kernel/fs/file.c: the table of filesystems, and the file descriptors of
-- the kernel.
pub mod Table
pub mod Calls
pub mod Filesystems
pub mod Valid
pub mod Open
use asif_os.Prelude.{
  ℕ, zero, suc, ◌+◌, ◌-◌, Bool, true, false, Option, none, some, List, [], ◌∷◌, ◌==◌, leb, ltb,
  if◌then◌else◌,
}
use asif_os.Prelude.Int.{ℤ}
use asif_os.Kern.Status.{Status, Code}
use asif_os.Pparser.{PathPart}
use asif_os.Fat16.Position.{FileStat}

-- `NuttleFs` over the data of an open file, with the state of the kernel that it works on. A read
-- answers the members read, or an error, with the bytes. `none` is a fault.
pub record NuttleFs (S Data : Type 0) : Type 0 where
  pub open_file : S → List PathPart → (mode : ℕ) → Option (Code Data × S)
  pub read_file : S → Data → (size nmemb : ℕ) → Option (Code ℕ × List ℕ × Data × S)
  pub seek_file : Data → ℤ → (whence : ℕ) → Status × Data
  pub stat_file : Data → (ptr : ℕ) → Status × Option FileStat
  pub close_file : S → Data → Option (Status × S)
  pub tell_file : Data → ℤ

-- `NuttleFileDescriptor` with its block. Its disk is the only one.
pub record FileDescriptor (Data : Type 0) : Type 0 where
  pub ptr : ℕ
  pub index : ℕ
  pub file_data : Data

-- NUTTLE_MAX_FILE_DESCRIPTORS
abbrev pub max_file_descriptors : ℕ
max_file_descriptors = 512
