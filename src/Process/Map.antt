-- ===== src/Process/Map.antt =====
-- The mappings that src/kernel/task/process.c makes for a program: `process_map_binary`,
-- `process_map_elf` and `process_map_memory`, over the memory of the page tables.
use asif_os.Prelude.{ℕ, ◌+◌, ◌-◌, ◌%◌, ◌^◌, List, [], ◌∷◌, bit_and, ◌==◌, if◌then◌else◌}
use asif_os.Kern.Status.{Status, all_ok, is_err}
use asif_os.Paging.{Memory, align_addr, map_to}
use asif_os.Elf.{ProgramHeader, ElfFile, segments}
use asif_os.Task.{user_program, user_stack}

-- NUTTLE_USER_STACK_SIZE and NUTTLE_USER_STACK_VIRTUAL_ADDR_END
abbrev pub stack_size : ℕ
stack_size = 32768

abbrev pub stack_end : ℕ
stack_end = user_stack - stack_size

-- `process_map_binary`: present, writable and accessible from all.
unfoldable pub map_binary : Memory → (directory ptr size : ℕ) → Status × Memory
map_binary mem directory ptr size =
    map_to mem directory user_program ptr (align_addr ((ptr + size) % 2 ^ 32)) 7

-- The flags of a segment: PF_W is 2.
abbrev pub segment_flags : ProgramHeader → ℕ
segment_flags header = if bit_and header.p_flags 2 == 0 then 5 else 7

-- `process_map_elf`
unfoldable pub map_elf : Memory → (directory : ℕ) → List ProgramHeader → Status × Memory
map_elf mem directory [] = (all_ok, mem)
map_elf mem directory (header ∷ headers) =
    let (res, mem') =
      map_to mem directory header.p_vaddr header.p_paddr
        (align_addr ((header.p_paddr + header.p_memsiz) % 2 ^ 32)) (segment_flags header) in
    let rest = map_elf mem' directory headers in if is_err res then (res, mem') else rest

-- What `ptr` points to by the `type`: a block with the bytes of a binary program and its size, or the
-- file of an ELF program.
pub data Program : Type 0 where
  binary : (ptr size : ℕ) → (bytes : List ℕ) → Program
  elf : ElfFile → Program

-- The `switch` of `process_map_memory`.
abbrev pub map_program : Memory → (directory : ℕ) → Program → Status × Memory
map_program mem directory (binary ptr size bytes) = map_binary mem directory ptr size
map_program mem directory (elf file) = map_elf mem directory (segments file)

-- `process_map_memory`
unfoldable pub map_memory : Memory → (directory : ℕ) → Program → (stack : ℕ) → Status × Memory
unfolding map_binary map_elf
map_memory mem directory program stack =
    let (res, mem') = map_program mem directory program in
    let rest =
      map_to mem' directory stack_end stack (align_addr ((stack + stack_size) % 2 ^ 32)) 7 in
    if is_err res then (res, mem') else rest
