-- ===== src/Fat16/Driver.antt =====
-- `fat16_init` of src/kernel/fs/fat16.c: the driver's functions as the kernel's filesystem. The state
-- is the allocator's with the driver's data for the disk.
use asif_os.Prelude.{ℕ, Option, none, some, List, [], ◌∷◌, ◌>>=◌, map}
use asif_os.Kern.Status.{Status, Code, ok}
use asif_os.Pparser.{PathPart}
use asif_os.Fat16.{Fat}
use asif_os.Fat16.File.{read}
use asif_os.Fat16.Position.{seek, stat, tell}
use asif_os.Fat16.Walk.{ItemPointer}
use asif_os.Fat16.Walk.Open.{OpenFile, open_file, close}
use asif_os.Fs.{NuttleFs}

module _ (disk_read_block : ℕ → Status × List ℕ) {S : Type 0} (malloc : S → ℕ → Option (ℕ × S))
    (free : S → ℕ → Option S) (fuel : ℕ) (stale : ItemPointer) (dir dir' block buf : List ℕ) where
  -- The kernel opens a path of at least one part.
  abbrev pub open_parts : S × Fat → List PathPart → ℕ → Option (Code OpenFile × (S × Fat))
  open_parts state [] mode = none
  open_parts (s, fat) (part ∷ parts) mode =
      open_file disk_read_block malloc free fuel s fat part.part (map (λ p. p.part) parts) mode
        stale dir dir' block
      >>= λ (res, fat', s'). some (res, (s', fat'))

  abbrev pub read_open :
      S × Fat → OpenFile → (size nmemb : ℕ) → Option (Code ℕ × List ℕ × OpenFile × (S × Fat))
  read_open (s, fat) desc size nmemb =
      read disk_read_block fat desc.file buf size nmemb >>= λ (n, bytes, file, fat').
      some (ok n, bytes, record desc { file = file }, (s, fat'))

  abbrev pub close_open : S × Fat → OpenFile → Option (Status × (S × Fat))
  close_open (s, fat) desc =
      close disk_read_block malloc free s desc >>= λ (res, s'). some (res, (s', fat))

  -- `fat16_init`
  abbrev pub fat16_fs : NuttleFs (S × Fat) OpenFile
  fat16_fs = record {
    open_file = open_parts;
    read_file = read_open;
    seek_file = λ desc offset whence.
        let (res, file) = seek desc.file offset whence in (res, record desc { file = file });
    stat_file = λ desc ptr. stat desc.file ptr;
    close_file = close_open;
    tell_file = λ desc. tell desc.file;
  }
