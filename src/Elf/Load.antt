-- ===== src/Elf/Load.antt =====
-- `elf_load` and `elf_free` of src/kernel/elf/loader.c, over the calls of src/kernel/fs/file.c that
-- src/kernel/stdkern/kernio.c passes on.
use asif_os.Prelude.{ℕ, Option, none, some, List, [], ◌∷◌, ◌==◌, ltb, if◌then◌else◌, ◌>>=◌, length}
use asif_os.Prelude.Int.{pos}
use asif_os.Kern.Status.{Status, eio, enomem, is_err, Code, ok, err}
use asif_os.Kern.Str.{strcmpk, is_zero}
use asif_os.Pparser.{max_path_size}
use asif_os.Fat16.File.{overwrite}
use asif_os.Fat16.Position.{FileStat}
use asif_os.Fs.{NuttleFs}
use asif_os.Fs.Table.{is_valid}
use asif_os.Fs.Calls.{Files, free_all, file_open, file_read, file_stat}
use asif_os.Elf.{ElfFile, elf_blocks, loader_load}

-- `fetch_mode` of the kernel's `fopenk`.
unfoldable pub fetch_mode : List ℕ → ℕ
fetch_mode mode =
    if is_zero (strcmpk mode (0x72 ∷ []))
    then 1
    else if is_zero (strcmpk mode (0x77 ∷ []))
    then 2
    else if is_zero (strcmpk mode (0x61 ∷ []))
    then 4
    else 8

module _ {S Data : Type 0} (malloc : S → ℕ → Option (ℕ × S)) (free : S → ℕ → Option S) where
  -- `elf_free`
  unfoldable pub elf_free : Files S Data → ElfFile → Option (Files S Data)
  elf_free files file =
      free_all free files.heap (elf_blocks file) >>= λ s. some (record files { heap = s })

  -- The end of `elf_load` after an error.
  abbrev pub fail_load : Files S Data → ElfFile → Status → Option (Code ElfFile × Files S Data)
  fail_load files file res = elf_free files file >>= λ files'. some (err res, files')

  -- `elf_load` behind `elf_loader_load`.
  abbrev pub end_load : Files S Data → Status × ElfFile × S → Option (Code ElfFile × Files S Data)
  end_load files (res, file, s) =
      let failed = fail_load (record files { heap = s }) file res in
      if is_err res then failed else some (ok file, record files { heap = s })

  module _ (fs : NuttleFs S Data) where
    -- `elf_load` behind `freadk`; a file of no bytes is all that a null block takes.
    abbrev pub load_read :
        ElfFile
        → (stale : List ℕ) → Code ℕ × List ℕ × Files S Data
        → Option (Code ElfFile × Files S Data)
    load_read file stale (err res, bytes, files) = fail_load files file res
    load_read file stale (ok n, bytes, files) =
        let load =
          loader_load malloc files.heap (record file { mem = overwrite bytes stale })
          >>= end_load files in
        if length bytes == 0 then load else if file.elf_mem == 0 then none else load

    -- `elf_load` behind `file_stat`, whose status is not looked at: a record it has not filled is a fault.
    abbrev pub load_stat :
        Files S Data
        → ElfFile
        → (stale : List ℕ) → (fd : ℕ) → Status × Option FileStat
        → Option (Code ElfFile × Files S Data)
    load_stat files file stale fd (res, none) = none
    load_stat files file stale fd (res, some stat) = malloc files.heap stat.size >>= λ (elf_mem, s).
        file_read malloc free fs (record files { heap = s }) 1 stat.size (pos fd)
        >>= load_read (record file { elf_mem = elf_mem }) stale

    -- `elf_load` behind `fopenk`; the answer of an error is no valid number.
    abbrev pub load_opened :
        ElfFile → (stale : List ℕ) → Code ℕ × Files S Data → Option (Code ElfFile × Files S Data)
    load_opened file stale (err res, files) = fail_load files file eio
    load_opened file stale (ok fd, files) =
        let load = file_stat malloc free fs files (pos fd) 1 >>= load_stat files file stale fd in
        if is_valid (pos fd) then load else fail_load files file eio

    -- `elf_load`; `stale` is what the block for the file holds before. The file is not closed.
    unfoldable pub elf_load :
        Files S Data → (filename stale : List ℕ) → Option (Code ElfFile × Files S Data)
    unfolding fetch_mode
    elf_load files filename stale =
        -- `sizeof(NuttleELFFile)` is 212, and its field for the name has 128 bytes.
        malloc files.heap 212 >>= λ (ptr, s).
        let file : ElfFile = record {
          ptr = ptr;
          filename = filename;
          elf_mem = 0;
          mem = [];
          pheaders_ptr = 0;
          pheaders = [];
          no_bits_allocs = [];
        } in
        let opened =
          file_open malloc free (some fs) (record files { heap = s }) filename
            (fetch_mode (0x72 ∷ []))
          >>= load_opened file stale in
        if ptr == 0
        then some (err enomem, record files { heap = s })
        else if ltb max_path_size (length filename)
        then none
        else opened
