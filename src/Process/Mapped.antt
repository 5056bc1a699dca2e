-- ===== src/Process/Mapped.antt =====
-- What the mappings of src/kernel/task/process.c make of a program's addresses.
use asif_os.Prelude.{ℕ, ◌+◌, ◌%◌, ◌^◌, ◌≤◌, ◌<◌, ◌≡◌, refl, ◌∙◌, arith, List, [], ◌∷◌, All}
use asif_os.Kern.Status.{all_ok}
use asif_os.Paging.{Memory, paging_size, get_physical_addr}
use asif_os.Paging.Translate.{IsValid}
use asif_os.Elf.{ProgramHeader, segments}
use asif_os.Task.{user_program}
use asif_os.Process.Map.{
  map_binary, Program, elf, binary, map_program, map_memory, stack_size, stack_end,
}
use asif_os.Process.Segments.{
  Maps, Outside, Placed, map_place, Segment, Disjoint, Separate, Mapped, Disjoint-Outside,
  map_elf_lem,
}

-- What a program asks for: a binary one whole at its address, an ELF one its segments.
abbrev pub Fits : Program → Type 0
Fits (binary ptr size bytes) = Placed user_program ptr size
Fits (elf file) = All Segment (segments file) × Separate (segments file)

abbrev pub Loaded : Memory → ℕ → Program → Type 0
Loaded mem directory (binary ptr size bytes) = Maps mem directory user_program ptr size
Loaded mem directory (elf file) = All (Mapped mem directory) (segments file)

-- A program leaves the pages of the stack alone, or any other range of addresses.
abbrev pub Leaves : Program → (virt size : ℕ) → Type 0
Leaves (binary ptr size' bytes) virt size = Disjoint user_program size' virt size
Leaves (elf file) virt size = All (λ h. Disjoint h.p_vaddr h.p_memsiz virt size) (segments file)

-- An address that a program does not use.
abbrev pub Unused : Program → ℕ → Type 0
Unused (binary ptr size bytes) at = Outside at user_program size
Unused (elf file) at = All (λ h. Outside at h.p_vaddr h.p_memsiz) (segments file)

map_program_lem :
    (program : Program) (mem : Memory) (directory : ℕ)
    → IsValid mem directory
    → Fits program
    → (mem' : Memory) × (map_program mem directory program ≡ (all_ok, mem'))
      × IsValid mem' directory
      × Loaded mem' directory program
      × ((at : ℕ)
          → at < 2 ^ 32
          → Unused program at
          → get_physical_addr mem' directory at ≡ get_physical_addr mem directory at)
unfolding map_binary
map_program_lem (binary ptr size bytes) mem directory v placed =
    map_place mem directory user_program ptr size 7 v placed (omega arith)
map_program_lem (elf file) mem directory v (placed, separate) =
    map_elf_lem (segments file) mem directory v placed separate

Maps-kept :
    (mem mem' : Memory) (directory virt phy size virt' size' : ℕ)
    → Placed virt phy size
    → Disjoint virt size virt' size'
    → Maps mem directory virt phy size
    → ((at : ℕ)
        → at < 2 ^ 32
        → Outside at virt' size'
        → get_physical_addr mem' directory at ≡ get_physical_addr mem directory at)
    → Maps mem' directory virt phy size
Maps-kept mem mem' directory virt phy size virt' size' placed d maps old offset lt =
    old (virt + offset) (omega (arith, placed)) (Disjoint-Outside virt size virt' size' offset d lt)
    ∙ maps offset lt

Mapped-kept :
    (headers : List ProgramHeader) (mem mem' : Memory) (directory virt size : ℕ)
    → All Segment headers
    → All (λ h. Disjoint h.p_vaddr h.p_memsiz virt size) headers
    → ((at : ℕ)
        → at < 2 ^ 32
        → Outside at virt size
        → get_physical_addr mem' directory at ≡ get_physical_addr mem directory at)
    → All (Mapped mem directory) headers
    → All (Mapped mem' directory) headers
Mapped-kept [] mem mem' directory virt size placed off old mapped = tt
Mapped-kept (h ∷ headers) mem mem' directory virt size (p, placed) (d, off) old (m, mapped) = (
  Maps-kept mem mem' directory h.p_vaddr h.p_paddr h.p_memsiz virt size p d m old,
  Mapped-kept headers mem mem' directory virt size placed off old mapped,
)

-- A mapping that a program leaves alone keeps it.
Loaded-kept :
    (program : Program) (mem mem' : Memory) (directory virt size : ℕ)
    → Fits program
    → Leaves program virt size
    → Loaded mem directory program
    → ((at : ℕ)
        → at < 2 ^ 32
        → Outside at virt size
        → get_physical_addr mem' directory at ≡ get_physical_addr mem directory at)
    → Loaded mem' directory program
Loaded-kept (binary ptr size' bytes) mem mem' directory virt size fits leaves loaded old =
    Maps-kept mem mem' directory user_program ptr size' virt size fits leaves loaded old
Loaded-kept (elf file) mem mem' directory virt size (placed, separate) leaves loaded old =
    Mapped-kept (segments file) mem mem' directory virt size placed leaves old loaded

-- After the mappings of a program that fits, whose pages are not those of the stack, and of a stack
-- in a page of its own below 2 ^ 32 ...
pub map_memory_lem :
    (program : Program) (mem : Memory) (directory stack : ℕ)
    → IsValid mem directory
    → Fits program
    → Leaves program stack_end stack_size
    → stack % paging_size ≡ 0
    → stack + stack_size + paging_size ≤ 2 ^ 32
    → (mem' : Memory) × (map_memory mem directory program stack ≡ (all_ok, mem'))
      × IsValid mem' directory
      × Loaded mem' directory program
      × Maps mem' directory stack_end stack stack_size
      × ((at : ℕ)
          → at < 2 ^ 32
          → Unused program at
          → Outside at stack_end stack_size
          → get_physical_addr mem' directory at ≡ get_physical_addr mem directory at)
unfolding map_memory
map_memory_lem program mem directory stack v fits leaves aligned le =
    let (mem1, done, v1, new, old) = map_program_lem program mem directory v fits in
    let (mem2, done2, v2, new2, old2) =
      map_place mem1 directory stack_end stack stack_size 7 v1
        (omega arith, refl, aligned, omega arith, le, omega arith) (omega arith) in
    (
      mem2,
      rw (done, done2) refl,
      v2,
      Loaded-kept program mem1 mem2 directory stack_end stack_size fits leaves new old2,
      new2,
      λ at at_in unused out. old2 at at_in out ∙ old at at_in unused,
    )
