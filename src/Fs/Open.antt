-- ===== src/Fs/Open.antt =====
-- `file_open` and `file_close` of src/kernel/fs/file.c, over any filesystem and allocator.
use asif_os.Prelude.{ℕ, ◌≡◌, ◌≢◌, refl, true, Option, none, some, List, ◌∷◌, load}
use asif_os.Prelude.Int.{pos}
use asif_os.Kern.Status.{all_ok, ok}
use asif_os.Pparser.{NuttlePath, PathPart, parse_path, freed_blocks}
use asif_os.Fs.{NuttleFs, FileDescriptor}
use asif_os.Fs.Table.{get_fd, is_valid_mode, new_descriptor}
use asif_os.Fs.Calls.{Files, free_all, file_open, file_close}
use asif_os.Fs.Valid.{Opened, new_descriptor-Opened}

module _ {S Data : Type 0} (malloc : S → ℕ → Option (ℕ × S)) (free : S → ℕ → Option S)
    (fs : NuttleFs S Data) where
  -- An open that finds a path with a part, a mode, the filesystem's file, a slot and memory answers the
  -- number of a new descriptor with the file's data: the number was free, and all others name what
  -- they named. A close of it then, when the filesystem's close and the allocator succeed, leaves the
  -- table as it was before the open.
  pub file_close-file_open :
      (files : Files S Data) (filename : List ℕ) (mode : ℕ) (file_data : Data) (path : NuttlePath)
      (part : PathPart) (parts : List PathPart) (parsed read given last closed end : S)
      (slot ptr : ℕ)
      → parse_path malloc files.heap filename ≡ some (ok path, parsed)
      → path.parts ≡ part ∷ parts
      → is_valid_mode mode ≡ true
      → fs.open_file parsed (part ∷ parts) mode ≡ some (ok file_data, read)
      → load files.table slot ≡ some none
      → malloc read 12 ≡ some (ptr, given)
      → ptr ≢ 0
      → free_all free given (freed_blocks path) ≡ some last
      → fs.close_file last file_data ≡ some (all_ok, closed)
      → free closed ptr ≡ some end
      → (desc : FileDescriptor Data) × (opened : Files S Data) × (file_open malloc free
            (some fs)
            files
            filename
            mode
          ≡ some (ok desc.index, opened))
        × (desc.file_data ≡ file_data)
        × (get_fd files.table (pos desc.index) ≡ some none)
        × (get_fd opened.table (pos desc.index) ≡ some (some desc))
        × ((fd : ℕ) → fd ≢ desc.index → get_fd opened.table (pos fd) ≡ get_fd files.table (pos fd))
        × (file_close malloc free fs opened (pos desc.index)
            ≡ some (all_ok, record { heap = end; table = files.table }))
  unfolding file_open file_close
  file_close-file_open files filename mode file_data path part parts parsed read given last closed
        end slot ptr parses has_part valid_mode opens some_slot gives some_block path_freed closes
        freed =
      let new : Opened malloc free given files.table file_data ptr
          (new_descriptor malloc free read files.table file_data) =
        new_descriptor-Opened malloc free read given files.table file_data slot ptr some_slot gives
          some_block in
      (
        new.desc,
        record { heap = last; table = new.table' },
        rw (parses, has_part, valid_mode, opens, new.answers, path_freed) refl,
        new.holds.0,
        new.was_free,
        new.found,
        new.others,
        rw (new.found, new.holds.0, closes, new.freed closed end freed) refl,
      )
