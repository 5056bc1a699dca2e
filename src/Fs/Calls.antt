-- ===== src/Fs/Calls.antt =====
-- The calls of src/kernel/fs/file.c on files. The filesystem of the disk and the allocator are
-- parameters; `disk_get(0)` is the disk whatever drive a path names.
use asif_os.Prelude.{
  ℕ, zero, suc, ◌-◌, Option, none, some, List, [], ◌∷◌, if◌then◌else◌, ◌>>=◌, set,
}
use asif_os.Prelude.Int.{ℤ, pos, negsuc}
use asif_os.Kern.Status.{Status, eio, einvarg, ebadpath, enofs, is_err, Code, ok, err}
use asif_os.Pparser.{NuttlePath, PathPart, parse_path, freed_blocks}
use asif_os.Fat16.Position.{FileStat}
use asif_os.Fs.{NuttleFs, FileDescriptor}
use asif_os.Fs.Table.{get_fd, is_valid_mode, new_descriptor, free_descriptor}

-- The kernel's state with the descriptors.
pub record Files (S Data : Type 0) : Type 0 where
  pub heap : S
  pub table : List (Option (FileDescriptor Data))

-- `pparser_free`: the blocks in their order.
abbrev pub free_all : {S : Type 0} → (S → ℕ → Option S) → S → List ℕ → Option S
free_all free s [] = some s
free_all free s (block ∷ blocks) = free s block >>= λ s'. free_all free s' blocks

module _ {S Data : Type 0} (malloc : S → ℕ → Option (ℕ × S)) (free : S → ℕ → Option S) where
  -- The end of `file_open`.
  abbrev pub leave_open :
      {A : Type 0}
      → NuttlePath
      → A
      → List (Option (FileDescriptor Data))
      → S
      → Option (A × Files S Data)
  leave_open path res table s =
      free_all free s (freed_blocks path) >>= λ s'. some (res, record { heap = s'; table = table })

  -- `file_open` behind `file_new_descriptor`, whose error is passed over: the null pointer is written.
  abbrev pub store_data :
      NuttlePath
      → Code (FileDescriptor Data) × List (Option (FileDescriptor Data)) × S
      → Option (Code ℕ × Files S Data)
  store_data path (err res, table, s) = none
  store_data path (ok desc, table, s) = leave_open path (ok desc.index) table s

  -- `file_open` behind the filesystem's `open`.
  abbrev pub take_descriptor :
      NuttlePath
      → List (Option (FileDescriptor Data))
      → Code Data × S
      → Option (Code ℕ × Files S Data)
  take_descriptor path table (err res, s) = leave_open path (err res) table s
  take_descriptor path table (ok file_data, s) =
      new_descriptor malloc free s table file_data >>= store_data path

  -- `file_open` behind its tests of the path and of the disk.
  abbrev pub open_on :
      Option (NuttleFs S Data)
      → NuttlePath
      → List PathPart
      → (mode : ℕ) → List (Option (FileDescriptor Data))
      → S
      → Option (Code ℕ × Files S Data)
  open_on none path parts mode table s = leave_open path (err enofs) table s
  open_on (some fs) path parts mode table s =
      if is_valid_mode mode
      then (fs.open_file s parts mode >>= take_descriptor path table)
      else leave_open path (err eio) table s

  -- `file_open` behind `pparser_parse_path`. After an error a path that was never set is freed.
  abbrev pub open_path :
      Option (NuttleFs S Data)
      → (mode : ℕ) → List (Option (FileDescriptor Data))
      → Code NuttlePath × S
      → Option (Code ℕ × Files S Data)
  open_path fs mode table (err res, s) = none
  open_path fs mode table (ok path, s) = elim path.parts [
    | [] ↦ leave_open path (err ebadpath) table s
    | part ∷ parts ↦ open_on fs path (part ∷ parts) mode table s
  ]

  -- `file_open`
  unfoldable pub file_open :
      Option (NuttleFs S Data)
      → Files S Data
      → (filename : List ℕ) → (mode : ℕ) → Option (Code ℕ × Files S Data)
  file_open fs files filename mode =
      parse_path malloc files.heap filename >>= open_path fs mode files.table

  -- A descriptor's file changes in place.
  abbrev pub put_data : Files S Data → FileDescriptor Data → Data → Files S Data
  put_data files desc file_data = record files {
    table = set files.table (desc.index - 1) (some (record desc { file_data = file_data }));
  }

  module _ (fs : NuttleFs S Data) where
    -- `file_read`; only this call tests for a number below 1.
    abbrev pub read_from :
        Files S Data
        → (size nmemb : ℕ) → Option (FileDescriptor Data)
        → Option (Code ℕ × List ℕ × Files S Data)
    read_from files size nmemb none = some (err einvarg, [], files)
    read_from files size nmemb (some desc) =
        fs.read_file files.heap desc.file_data size nmemb >>= λ (res, bytes, file_data, s).
        some (res, bytes, record (put_data files desc file_data) { heap = s })

    unfoldable pub file_read :
        Files S Data → (size nmemb : ℕ) → ℤ → Option (Code ℕ × List ℕ × Files S Data)
    file_read files size nmemb (pos zero) = some (err einvarg, [], files)
    file_read files size nmemb (pos (suc fd)) =
        get_fd files.table (pos (suc fd)) >>= read_from files size nmemb
    file_read files size nmemb (negsuc fd) = some (err einvarg, [], files)

    -- `file_seek`
    abbrev pub seek_in : Files S Data → ℤ → ℕ → Option (FileDescriptor Data) → Status × Files S Data
    seek_in files offset whence none = (einvarg, files)
    seek_in files offset whence (some desc) =
        let (res, file_data) = fs.seek_file desc.file_data offset whence in
        (res, put_data files desc file_data)

    unfoldable pub file_seek : Files S Data → ℤ → ℤ → ℕ → Option (Status × Files S Data)
    file_seek files fd offset whence =
        get_fd files.table fd >>= λ desc. some (seek_in files offset whence desc)

    -- `file_stat`
    abbrev pub stat_of : ℕ → Option (FileDescriptor Data) → Status × Option FileStat
    stat_of ptr none = (einvarg, none)
    stat_of ptr (some desc) = fs.stat_file desc.file_data ptr

    unfoldable pub file_stat : Files S Data → ℤ → (ptr : ℕ) → Option (Status × Option FileStat)
    file_stat files fd ptr = get_fd files.table fd >>= λ desc. some (stat_of ptr desc)

    -- `file_tell`
    abbrev pub tell_of : Option (FileDescriptor Data) → ℤ
    tell_of none = negsuc 0
    tell_of (some desc) = fs.tell_file desc.file_data

    unfoldable pub file_tell : Files S Data → ℤ → Option ℤ
    file_tell files fd = get_fd files.table fd >>= λ desc. some (tell_of desc)

    -- `file_close`
    abbrev pub close_descriptor :
        Files S Data → FileDescriptor Data → Status × S → Option (Status × Files S Data)
    close_descriptor files desc (res, s) =
        if is_err res
        then some (res, record files { heap = s })
        else (free_descriptor malloc free s files.table desc >>= λ (table, s').
            some (res, record { heap = s'; table = table }))

    abbrev pub close_on :
        Files S Data → Option (FileDescriptor Data) → Option (Status × Files S Data)
    close_on files none = some (einvarg, files)
    close_on files (some desc) =
        fs.close_file files.heap desc.file_data >>= close_descriptor files desc

    unfoldable pub file_close : Files S Data → ℤ → Option (Status × Files S Data)
    file_close files fd = get_fd files.table fd >>= close_on files
