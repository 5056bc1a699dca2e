-- ===== src/Fs/Filesystems.antt =====
-- The table of filesystems of src/kernel/fs/fs.c.
use asif_os.Prelude.{ℕ, Option, none, some, List, [], ◌∷◌, store, if◌then◌else◌, replicate}
use asif_os.Kern.Status.{Status, all_ok, enofs, is_err}
use asif_os.Fs.Table.{free_slot}

-- NUTTLE_MAX_FILESYSTEMS
abbrev pub max_filesystems : ℕ
max_filesystems = 16

module _ {Fs : Type 0} where
  abbrev pub insert_at : List (Option Fs) → Fs → Option ℕ → Option (List (Option Fs))
  insert_at filesystems fs none = none
  insert_at filesystems fs (some slot) = store filesystems slot (some fs)

  -- `fs_insert_filesystem`; `none` is the panic when no slot is free.
  unfoldable pub insert_filesystem : List (Option Fs) → Fs → Option (List (Option Fs))
  unfolding free_slot
  insert_filesystem filesystems fs = insert_at filesystems fs (free_slot filesystems 0)

  -- `fs_fetch_disk_fs`: the filesystems that are there are asked in turn, until one resolves the disk.
  unfoldable pub fetch_disk_fs :
      {S : Type 0} → (resolve : Fs → S → Status × S) → List (Option Fs) → S → Status × S
  fetch_disk_fs resolve [] s = (enofs, s)
  fetch_disk_fs resolve (none ∷ filesystems) s = fetch_disk_fs resolve filesystems s
  fetch_disk_fs resolve (some fs ∷ filesystems) s =
      let (res, s') = resolve fs s in
      let rest = fetch_disk_fs resolve filesystems s' in if is_err res then rest else (all_ok, s')

  -- `fs_init`, with the filesystem that `fs_load` inserts.
  unfoldable pub fs_init : Fs → Option (List (Option Fs))
  unfolding insert_filesystem
  fs_init fat16 = insert_filesystem (replicate max_filesystems none) fat16
