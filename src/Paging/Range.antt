-- ===== src/Paging/Range.antt =====
-- `paging_map_to` of src/kernel/paging/paging.c: a range of pages.
use asif_os.Prelude.{
  ℕ, zero, suc, ◌+◌, ◌-◌, ◌*◌, ◌/◌, ◌%◌, ◌^◌, ◌≤◌, ◌<◌, ◌≡◌, refl, ap, ◌∙◌, arith, dec_lt,
}
use asif_os.Kern.Status.{all_ok, ok}
use asif_os.Paging.{Memory, map_range, map_to, get_physical_addr, paging_size}
use asif_os.Paging.Translate.{IsValid, map_lem}

map_range_lem :
    (count : ℕ) (mem : Memory) (directory virt phy flags : ℕ)
    → IsValid mem directory
    → 0 < virt
    → virt % paging_size ≡ 0
    → virt + count * paging_size < 2 ^ 32
    → phy % paging_size ≡ 0
    → phy + count * paging_size < 2 ^ 32
    → flags < paging_size
    → (mem' : Memory) × (map_range count mem directory virt phy flags ≡ (all_ok, mem'))
      × IsValid mem' directory
      × ((offset : ℕ)
          → offset < count * paging_size
          → get_physical_addr mem' directory (virt + offset) ≡ ok (phy + offset))
      × ((at : ℕ)
          → at < 2 ^ 32
          → (virt ≤ at → virt + count * paging_size ≤ at)
          → get_physical_addr mem' directory at ≡ get_physical_addr mem directory at)
unfolding map_range
map_range_lem zero mem directory virt phy flags v pos e lt e' lt' flags_in =
    (mem, refl, v, λ offset small. absurd (omega arith), λ at at_in out. refl)
map_range_lem (suc count) mem directory virt phy flags v pos e lt e' lt' flags_in =
    let (mem1, mapped, v1, here, kept) =
      map_lem mem directory virt phy flags v (omega arith) pos e (omega arith) e' flags_in in
    let (mem2, rest, v2, there, kept') =
      map_range_lem count mem1 directory (virt + paging_size) (phy + paging_size) flags v1
        (omega arith) (omega arith) (omega arith) (omega arith) (omega arith) flags_in in
    let next : (virt + paging_size) % 2 ^ 32 ≡ virt + paging_size = omega arith in
    let next' : (phy + paging_size) % 2 ^ 32 ≡ phy + paging_size = omega arith in
    (
      mem2,
      rw (mapped, next, next', rest) refl,
      v2,
      λ offset small. elim (dec_lt offset paging_size) [
        | yes first ↦
            kept' (virt + offset) (omega arith) (λ le. absurd (omega arith)) ∙ here offset first
        | no later ↦
            ap (get_physical_addr mem2 directory) {y = virt + paging_size + (offset - paging_size)}
              (omega arith)
            ∙ there (offset - paging_size) (omega arith)
            ∙ ap ok (omega arith)
      ],
      λ at at_in out.
          kept' at at_in (λ le. omega (arith, out (omega arith)))
          ∙ kept at at_in (λ same. omega (arith, out)),
    )

-- `paging_map_to` of a range of pages, none of them the first page and none at the end of the
-- address space, to as many pages of physical memory, less than 2 GB: it succeeds, every byte of the range is
-- translated to its byte of the physical range, every other address as before, and the chunk stays
-- valid.
pub map_to_lem :
    (mem : Memory) (directory virt phy_start phy_end flags : ℕ)
    → IsValid mem directory
    → 0 < virt
    → virt % paging_size ≡ 0
    → phy_start % paging_size ≡ 0
    → phy_end % paging_size ≡ 0
    → phy_start ≤ phy_end
    → phy_end < 2 ^ 32
    → phy_end - phy_start < 2 ^ 31
    → virt + (phy_end - phy_start) < 2 ^ 32
    → flags < paging_size
    → (mem' : Memory) × (map_to mem directory virt phy_start phy_end flags ≡ (all_ok, mem'))
      × IsValid mem' directory
      × ((offset : ℕ)
          → offset < phy_end - phy_start
          → get_physical_addr mem' directory (virt + offset) ≡ ok (phy_start + offset))
      × ((at : ℕ)
          → at < 2 ^ 32
          → (virt ≤ at → virt + (phy_end - phy_start) ≤ at)
          → get_physical_addr mem' directory at ≡ get_physical_addr mem directory at)
unfolding map_to
map_to_lem mem directory virt phy_start phy_end flags v pos e e1 e2 le lt short lt' flags_in =
    let pages : ℕ = (phy_end - phy_start) / paging_size in
    let whole : pages * paging_size ≡ phy_end - phy_start = omega arith in
    let (mem', done, v', new, old) =
      map_range_lem pages mem directory virt phy_start flags v pos e (omega arith) e1 (omega arith)
        flags_in in
    (
      mem',
      ground (arith, done),
      v',
      λ offset small. new offset (omega arith),
      λ at at_in out. old at at_in (λ from. omega (arith, out from)),
    )

-- A range of 2 GB or more is answered as done, and nothing is mapped.
map_to-huge :
    (mem : Memory) (directory virt phy_start phy_end flags : ℕ)
    → virt % paging_size ≡ 0
    → phy_start % paging_size ≡ 0
    → phy_end % paging_size ≡ 0
    → phy_start + 2 ^ 31 ≤ phy_end
    → map_to mem directory virt phy_start phy_end flags ≡ (all_ok, mem)
unfolding map_to
map_to-huge mem directory virt phy_start phy_end flags e e1 e2 huge = ground arith
