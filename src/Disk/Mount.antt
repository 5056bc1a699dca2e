-- ===== src/Disk/Mount.antt =====
-- `disk_all_init` of src/kernel/disk/disk.c: the primary disk, and the filesystem that resolves it.
use asif_os.Prelude.{ℕ, Option, none, some, List, if◌then◌else◌}
use asif_os.Kern.Status.{Status, is_err}
use asif_os.Fs.Filesystems.{fetch_disk_fs}
use asif_os.Stream

-- `NuttleDisk`: its sector size and number, and the private data of its filesystem, set once one
-- resolves it.
pub record NuttleDisk (Private : Type 0) : Type 0 where
  pub sector_size : ℕ
  pub id : ℕ
  pub fs_private : Option Private

-- The disk before a filesystem is found.
abbrev pub fresh_disk : {Private : Type 0} → NuttleDisk Private
fresh_disk = record { sector_size = Stream.sector_size; id = 0; fs_private = none }

-- `disk_all_init` over the filesystems; without one the kernel panics (`none`).
unfoldable pub disk_all_init :
    {Fs Private : Type 0}
    → (resolve : Fs → NuttleDisk Private → Status × NuttleDisk Private) → List (Option Fs)
    → Option (NuttleDisk Private)
disk_all_init resolve filesystems =
    let (res, disk) = fetch_disk_fs resolve filesystems fresh_disk in
    if is_err res then none else some disk
