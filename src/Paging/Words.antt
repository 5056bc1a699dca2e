-- ===== src/Paging/Words.antt =====
-- The words that src/kernel/paging/paging.c reads and writes, in arithmetic.
use asif_os.Prelude.{
  ℕ, ◌+◌, ◌*◌, ◌/◌, ◌%◌, ◌^◌, ◌<◌, ◌≡◌, ◌≢◌, sym, ap, ◌∙◌, bit_or, bit_and, arith,
}
use asif_os.Prelude.Bits.{bit_or_shifted, bit_and_mask, bit_and_page, bit_or_above}
use asif_os.Kern.Status.{ok}
use asif_os.Paging.{Memory, write, entry_page, get_indices, paging_size}

pub write_same : (mem : Memory) (addr word : ℕ) → write mem addr word addr ≡ word
unfolding write
write_same mem addr word = ground arith

pub write_other : (mem : Memory) (addr word at : ℕ) → at ≢ addr → write mem addr word at ≡ mem at
unfolding write
write_other mem addr word at ne = ground (arith, ne)

pub write_in :
    (mem : Memory) (addr word bound : ℕ)
    → ((at : ℕ) → mem at < bound)
    → word < bound
    → (at : ℕ) → write mem addr word at < bound
unfolding write
write_in mem addr word bound h lt at = ground (arith, h at)

-- The page of a word of a page table: the address without its 12 low bits.
pub entry_page_lem :
    (entry : ℕ) → entry < 2 ^ 32 → entry_page entry ≡ entry / paging_size * paging_size
entry_page_lem = bit_and_page

-- Adding flags leaves the page.
pub entry_page-bit_or :
    (entry flags : ℕ)
    → entry < 2 ^ 32
    → flags < paging_size
    → (entry_page (bit_or entry flags) ≡ entry_page entry) × (bit_or entry flags < 2 ^ 32)
entry_page-bit_or entry flags lt few =
    let (low, small, same) =
      bit_or_above 12 (entry / paging_size) (entry % paging_size) flags (omega arith) few in
    let split : entry ≡ entry / paging_size * paging_size + entry % paging_size = omega arith in
    let whole : bit_or entry flags ≡ entry / paging_size * paging_size + low =
      ap (λ (e : ℕ). bit_or e flags) split ∙ same in
    let fits : bit_or entry flags < 2 ^ 32 = omega (arith, small) in
    (
      bit_and_page (bit_or entry flags) fits ∙ omega (arith, small) ∙ sym (bit_and_page entry lt),
      fits,
    )

-- A page and an offset in it.
pub bit_or-page :
    (page offset : ℕ)
    → page % paging_size ≡ 0
    → offset < paging_size
    → bit_or page offset ≡ page + offset
bit_or-page page offset aligned lt =
    let split : page ≡ page / paging_size * paging_size = omega arith in
    ap (λ (e : ℕ). bit_or e offset) split
    ∙ bit_or_shifted 12 (page / paging_size) offset lt
    ∙ omega arith

pub get_indices_lem :
    (virt : ℕ)
    → virt < 2 ^ 32
    → 0 < virt
    → get_indices virt ≡ ok (virt / 2 ^ 22, virt / 2 ^ 12 % 2 ^ 10, virt % 2 ^ 12)
unfolding get_indices
get_indices_lem virt lt pos =
    let directory_index : bit_and (virt / 2 ^ 22) 0x3ff ≡ virt / 2 ^ 22 =
      bit_and_mask 10 (virt / 2 ^ 22) ∙ omega arith in
    ground (arith, directory_index, bit_and_mask 10 (virt / 2 ^ 12), bit_and_mask 12 virt)
