-- ===== src/Elf.antt =====
-- src/kernel/elf/loader.c: the loader of ELF programs. The file's memory is its bytes and an address;
-- the allocator (0 is no memory) and the calls on files are parameters. `none` is a fault.
pub mod Patch
pub mod Patched
pub mod Segments
pub mod Load
use asif_os.Prelude.{
  ℕ, zero, suc, ◌+◌, ◌-◌, ◌*◌, ◌%◌, ◌^◌, Bool, true, false, ◌&&◌, ◌||◌, not, Option, none, some,
  List, [], ◌∷◌, ◌++◌, ◌==◌, leb, ltb, if◌then◌else◌, ◌>>=◌, length, get_or, drop, take, set, map,
  dec_lt, ◌/◌,
}
use asif_os.Kern.Status.{Status, all_ok, eio, enomem, einvformat, is_err, Code, ok, err}
use asif_os.Kern.Str.{memcmpk, is_zero}
use asif_os.Fat16.{le16, le32}

-- `elf_signature`
abbrev pub elf_signature : List ℕ
elf_signature = 0x7f ∷ 0x45 ∷ 0x4c ∷ 0x46 ∷ []

-- `elf_loader_validate_signature`. The block of a file has at least the 52 bytes of the header.
abbrev pub has_signature : List ℕ → Bool
has_signature mem = elim (memcmpk mem elf_signature 4) [
  | none ↦ false
  | some difference ↦ is_zero difference
]

-- The fields `e_phoff` and `e_phentnum` of the header.
abbrev pub pheader_offset : List ℕ → ℕ
pheader_offset mem = le32 mem 28

abbrev pub pheader_number : List ℕ → ℕ
pheader_number mem = le16 mem 44

-- `elf_loader_validate_elf` and the tests that it calls: the class 32 bits, no or a little-endian
-- encoding, and program headers.
unfoldable pub validate_elf : List ℕ → Status
validate_elf mem =
    if has_signature mem
      && get_or mem 4 0 == 1
      && (get_or mem 5 0 == 0 || get_or mem 5 0 == 1)
      && not (pheader_offset mem == 0)
    then all_ok
    else einvformat

-- `NuttleELF32ProgramHeader`
pub record ProgramHeader : Type 0 where
  pub p_type : ℕ
  pub p_offset : ℕ
  pub p_vaddr : ℕ
  pub p_paddr : ℕ
  pub p_filesiz : ℕ
  pub p_memsiz : ℕ
  pub p_flags : ℕ

abbrev pub pheader_size : ℕ
pheader_size = 32

-- The header at an offset of the file's memory.
unfoldable pub header_at : List ℕ → ℕ → ProgramHeader
header_at mem at = record {
  p_type = le32 mem at;
  p_offset = le32 mem (at + 4);
  p_vaddr = le32 mem (at + 8);
  p_paddr = le32 mem (at + 12);
  p_filesiz = le32 mem (at + 16);
  p_memsiz = le32 mem (at + 20);
  p_flags = le32 mem (at + 24);
}

-- `elf_loader_get_program_header`: the offset of a header, by the number of it; a header that is not
-- in the file's memory is a fault.
abbrev pub header_offset : List ℕ → (index : ℕ) → ℕ
header_offset mem index = pheader_offset mem + index * pheader_size

unfoldable pub program_header : List ℕ → (at : ℕ) → Option ProgramHeader
unfolding header_at
program_header mem at =
    if ltb (length mem) (at + pheader_size) then none else some (header_at mem at)

-- `pheader -> p_paddr = paddr`, into the file's memory.
unfoldable pub write_paddr : List ℕ → (at paddr : ℕ) → List ℕ
write_paddr mem at paddr =
    set
      (set (set (set mem (at + 12) (paddr % 256)) (at + 13) (paddr / 256 % 256)) (at + 14)
        (paddr / 65536 % 256))
      (at + 15) (paddr / 16777216 % 256)

-- NUTTLE_MAX_NOBITS_ALLOC
abbrev pub max_no_bits : ℕ
max_no_bits = 16

-- `NuttleELFFile`: its block, the file's memory and address, the block of the pointers to the program
-- headers and these pointers, as offsets of the file's memory, and the blocks of the segments without bytes in the file.
pub record ElfFile : Type 0 where
  pub ptr : ℕ
  pub filename : List ℕ
  pub elf_mem : ℕ
  pub mem : List ℕ
  pub pheaders_ptr : ℕ
  pub pheaders : List ℕ
  pub no_bits_allocs : List ℕ

-- The headers that the pointers point to.
abbrev pub segments : ElfFile → List ProgramHeader
segments file = map (header_at file.mem) file.pheaders

-- A pointer to a header is stored behind the others in the block, which may be null, and has `room`
-- for so many of them.
abbrev pub store_header : (room : ℕ) → ElfFile → (at : ℕ) → Option ElfFile
store_header room file at =
    if file.pheaders_ptr == 0 || leb room (length file.pheaders)
    then none
    else some (record file { pheaders = file.pheaders ++ (at ∷ []) })

-- The file with the address of a segment in its header.
abbrev pub place : ElfFile → (at paddr : ℕ) → ElfFile
place file at paddr = record file { mem = write_paddr file.mem at paddr }

abbrev pub elf_blocks : ElfFile → List ℕ
elf_blocks file =
    (if file.elf_mem == 0 then [] else file.elf_mem ∷ [])
    ++ ((if file.pheaders_ptr == 0 then [] else file.pheaders_ptr ∷ [])
        ++ (file.no_bits_allocs ++ (file.ptr ∷ [])))

-- As many rounds of the loop as a number of 16 bits allows.
abbrev pub loader_fuel : ℕ
loader_fuel = 65535

module _ {S : Type 0} (malloc : S → ℕ → Option (ℕ × S)) where
  -- The case PT_LOAD of `elf_loader_process_pheader`, for the header at an offset.
  unfoldable pub load_segment :
      (room : ℕ) → S → ElfFile → (at : ℕ) → ProgramHeader → Option (Status × ElfFile × S)
  unfolding write_paddr
  load_segment room s file at header =
      let no_bits = malloc s header.p_memsiz >>= λ (paddr, s').
      let placed = place file at paddr in
      let kept = record placed { no_bits_allocs = placed.no_bits_allocs ++ (paddr ∷ []) } in
      if paddr == 0
      then some (enomem, placed, s')
      else if leb max_no_bits (length file.no_bits_allocs)
      then none
      else (store_header room kept at >>= λ file'. some (all_ok, file', s')) in
      let in_file = place file at ((file.elf_mem + header.p_offset) % 2 ^ 32) in
      if header.p_filesiz == 0
      then no_bits
      else (store_header room in_file at >>= λ file'. some (all_ok, file', s))

  -- The loop of `elf_loader_process_pheader` from the header `i` on, with fuel. The ELF header is in the
  -- memory that the loop writes to, and is read again in every round.
  unfoldable pub load_segments :
      (fuel room : ℕ) → S → ElfFile → (i : ℕ) → Option (Status × ElfFile × S)
  unfolding load_segment
  load_segments zero room s file i = some (all_ok, file, s)
  load_segments (suc fuel) room s file i = elim (dec_lt i (pheader_number file.mem)) [
    | no _ ↦ some (all_ok, file, s)
    | yes _ ↦ program_header file.mem (header_offset file.mem i) >>= λ header.
        let skip = load_segments fuel room s file (i + 1) in
        let load =
          load_segment room s file (header_offset file.mem i) header >>= λ (res, file', s').
          let rest = load_segments fuel room s' file' (i + 1) in
          if is_err res then some (res, file', s') else rest in
        if header.p_type == 1 then load else skip
  ]

  -- `elf_loader_process_pheader`
  unfoldable pub process_pheader : S → ElfFile → Option (Status × ElfFile × S)
  unfolding load_segments
  process_pheader s file = malloc s (pheader_number file.mem * 4) >>= λ (ptr, s').
      load_segments loader_fuel (pheader_number file.mem) s'
        (record file { pheaders_ptr = ptr; pheaders = [] }) 0

  -- `elf_loader_load`
  unfoldable pub loader_load : S → ElfFile → Option (Status × ElfFile × S)
  unfolding process_pheader
  loader_load s file =
      let rest = process_pheader s file in
      if is_err (validate_elf file.mem) then some (validate_elf file.mem, file, s) else rest
