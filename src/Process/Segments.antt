-- ===== src/Process/Segments.antt =====
-- What `process_map_elf` of src/kernel/task/process.c makes of the addresses of a program's segments.
use asif_os.Prelude.{
  All-map, ℕ, ◌+◌, ◌-◌, ◌*◌, ◌/◌, ◌%◌, ◌^◌, ◌≤◌, ◌<◌, ◌≡◌, refl, ap, ◌∙◌, arith, List, [], ◌∷◌, All,
  ◌⊎◌, inl, inr,
}
use asif_os.Kern.Status.{all_ok, ok}
use asif_os.Paging.{Memory, paging_size, align_addr, map_to, get_physical_addr}
use asif_os.Paging.Translate.{IsValid}
use asif_os.Paging.Range.{map_to_lem}
use asif_os.Elf.{ProgramHeader}
use asif_os.Process.Map.{segment_flags, map_elf}

-- A size in whole pages.
abbrev pub span : ℕ → ℕ
span size = (size + 4095) / paging_size * paging_size

pub align_addr-page :
    (page size : ℕ)
    → page % paging_size ≡ 0
    → page + size + paging_size ≤ 2 ^ 32
    → align_addr ((page + size) % 2 ^ 32) ≡ page + span size
unfolding align_addr
align_addr-page page size aligned le =
    let small : (page + size) % 2 ^ 32 ≡ page + size = omega arith in
    rw small (ground (arith, aligned, le))

-- Addresses that the pages of a mapping translate, and those that they leave alone.
abbrev pub Maps : Memory → (directory virt phy size : ℕ) → Type 0
Maps mem directory virt phy size =
    (offset : ℕ)
    → offset < span size
    → get_physical_addr mem directory (virt + offset) ≡ ok (phy + offset)

abbrev pub Outside : (at virt size : ℕ) → Type 0
Outside at virt size = virt ≤ at → virt + span size ≤ at

-- Memory of a program can be mapped: page by page, off the first page and the end of the address
-- space, and less than 2 GB, of which `paging_map_to` would map nothing.
abbrev pub Placed : (virt phy size : ℕ) → Type 0
Placed virt phy size =
    (0 < virt)
    × (virt % paging_size ≡ 0)
    × (phy % paging_size ≡ 0)
    × (virt + size + paging_size ≤ 2 ^ 32)
    × (phy + size + paging_size ≤ 2 ^ 32)
    × (size + paging_size ≤ 2 ^ 31)

pub map_place :
    (mem : Memory) (directory virt phy size flags : ℕ)
    → IsValid mem directory
    → Placed virt phy size
    → flags < paging_size
    → (mem' : Memory) × (map_to mem directory virt phy (align_addr ((phy + size) % 2 ^ 32)) flags
        ≡ (all_ok, mem'))
      × IsValid mem' directory
      × Maps mem' directory virt phy size
      × ((at : ℕ)
          → at < 2 ^ 32
          → Outside at virt size
          → get_physical_addr mem' directory at ≡ get_physical_addr mem directory at)
map_place mem directory virt phy size flags v (pos, aligned, aligned', le, le', short) few =
    let end : align_addr ((phy + size) % 2 ^ 32) ≡ phy + span size =
      align_addr-page phy size aligned' le' in
    let whole : phy + span size - phy ≡ span size = omega arith in
    let (mem', done, v', new, old) =
      map_to_lem mem directory virt phy (phy + span size) flags v pos aligned aligned' (omega arith)
        (omega arith) (omega arith) (omega arith) (omega arith) few in
    (
      mem',
      ap (λ end. map_to mem directory virt phy end flags) end ∙ done,
      v',
      λ offset lt. new offset (omega arith),
      λ at at_in out. old at at_in (λ from. omega (arith, out from)),
    )

-- The segments of a program, and that no two of them share a page.
abbrev pub Segment : ProgramHeader → Type 0
Segment header = Placed header.p_vaddr header.p_paddr header.p_memsiz

abbrev pub Disjoint : (virt size virt' size' : ℕ) → Type 0
Disjoint virt size virt' size' = (virt + span size ≤ virt') ⊎ (virt' + span size' ≤ virt)

abbrev pub Separate : List ProgramHeader → Type 0
Separate [] = Unit {0}
Separate (header ∷ headers) =
    All (λ other. Disjoint header.p_vaddr header.p_memsiz other.p_vaddr other.p_memsiz) headers
    × Separate headers

abbrev pub Mapped : Memory → ℕ → ProgramHeader → Type 0
Mapped mem directory header = Maps mem directory header.p_vaddr header.p_paddr header.p_memsiz

-- An address in the pages of one mapping is outside of a disjoint one.
pub Disjoint-Outside :
    (virt size virt' size' offset : ℕ)
    → Disjoint virt size virt' size'
    → offset < span size
    → Outside (virt + offset) virt' size'
Disjoint-Outside virt size virt' size' offset (inl le) lt = λ from. absurd (omega arith)
Disjoint-Outside virt size virt' size' offset (inr le) lt = λ from. omega arith

segment_flags_in : (header : ProgramHeader) → segment_flags header < paging_size
segment_flags_in header = ground arith

-- The segments of a program, no two of which share a page, are mapped one after the other: all succeed,
-- each address of a segment is translated to its place in memory, and the others as before.
pub map_elf_lem :
    (headers : List ProgramHeader) (mem : Memory) (directory : ℕ)
    → IsValid mem directory
    → All Segment headers
    → Separate headers
    → (mem' : Memory) × (map_elf mem directory headers ≡ (all_ok, mem'))
      × IsValid mem' directory
      × All (Mapped mem' directory) headers
      × ((at : ℕ)
          → at < 2 ^ 32
          → All (λ h. Outside at h.p_vaddr h.p_memsiz) headers
          → get_physical_addr mem' directory at ≡ get_physical_addr mem directory at)
unfolding map_elf
map_elf_lem [] mem directory v placed separate = (mem, refl, v, tt, λ at at_in out. refl)
map_elf_lem (header ∷ headers) mem directory v (here, placed) (off, separate) =
    let (mem1, done, v1, new, old) =
      map_place mem directory header.p_vaddr header.p_paddr header.p_memsiz (segment_flags header) v
        here (segment_flags_in header) in
    let (mem2, rest, v2, news, old2) = map_elf_lem headers mem1 directory v1 placed separate in
    (
      mem2,
      rw (done, rest) refl,
      v2,
      (
        λ offset lt.
            old2 (header.p_vaddr + offset) (omega (arith, here)) (
              All-map headers
                (λ other d.
                  Disjoint-Outside header.p_vaddr header.p_memsiz other.p_vaddr other.p_memsiz
                    offset d lt)
                off)
            ∙ new offset lt,
        news,
      ),
      λ at at_in out. old2 at at_in out.1 ∙ old at at_in out.0,
    )
