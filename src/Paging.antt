-- ===== src/Paging.antt =====
-- src/kernel/paging/paging.c: page directories and page tables in memory. Memory is a function from
-- the address of a 32-bit word to the word, an address is a number below 2 ^ 32, and a chunk is the
-- address of its directory.
pub mod Words
pub mod Translate
pub mod Range
pub mod Chunk
pub mod Fresh
pub mod Identity
pub mod Made
use asif_os.Prelude.{
  ℕ, zero, suc, ◌+◌, ◌-◌, ◌*◌, ◌/◌, ◌%◌, ◌^◌, Bool, true, false, bit_or, bit_and, ◌==◌, ltb,
  if◌then◌else◌,
}
use asif_os.Kern.Status.{Status, all_ok, einvarg, is_err, Code, ok, err}

-- PAGING_SIZE, PAGING_TOTAL_DIRECTORY_ENTRIES and PAGING_TOTAL_TABLE_ENTRIES
abbrev pub paging_size : ℕ
paging_size = 4096

abbrev pub total_entries : ℕ
total_entries = 1024

abbrev pub Memory : Type 0
Memory = ℕ → ℕ

unfoldable pub write : Memory → ℕ → ℕ → Memory
write mem addr word at = if at == addr then word else mem at

-- The address of a word of an array of words.
abbrev pub word_at : ℕ → ℕ → ℕ
word_at base i = base + 4 * i

-- `entry & ~0xfff`
abbrev pub entry_page : ℕ → ℕ
entry_page entry = bit_and entry 0xfffff000

-- `validate_alignment`
abbrev pub validate_alignment : ℕ → Bool
validate_alignment addr = addr % paging_size == 0

-- `paging_align_addr`
unfoldable pub align_addr : ℕ → ℕ
align_addr val =
    if val % paging_size == 0 then val else (val + (paging_size - val % paging_size)) % 2 ^ 32

-- `paging_get_indices`: the directory index, the table index and the offset.
unfoldable pub get_indices : ℕ → Code (ℕ × ℕ × ℕ)
get_indices virt =
    if virt == 0
    then err einvarg
    else ok (bit_and (virt / 2 ^ 22) 0x3ff, bit_and (virt / 2 ^ 12) 0x3ff, bit_and virt 0xfff)

-- The rest of `paging_map`, behind its checks.
pub map_entry : Memory → ℕ → Code (ℕ × ℕ × ℕ) → ℕ → ℕ → Status × Memory
map_entry mem directory (err res) phy flags = (res, mem)
map_entry mem directory (ok (directory_index, table_index, offset)) phy flags =
    let entry = mem (word_at directory directory_index) in
    let table = entry_page entry in
    let mem' = write mem (word_at table table_index) (bit_or phy flags) in
    (all_ok, write mem' (word_at directory directory_index) (bit_or entry flags))

-- `paging_map`
unfoldable pub map : Memory → ℕ → ℕ → ℕ → ℕ → Status × Memory
unfolding map_entry
map mem directory virt phy flags =
    if validate_alignment virt
    then if validate_alignment phy
      then map_entry mem directory (get_indices virt) phy flags
      else (einvarg, mem)
    else (einvarg, mem)

-- `paging_map_range`
unfoldable pub map_range : ℕ → Memory → ℕ → ℕ → ℕ → ℕ → Status × Memory
map_range zero mem directory virt phy flags = (all_ok, mem)
map_range (suc count) mem directory virt phy flags =
    let (res, mem') = map mem directory virt phy flags in
    let rest =
      map_range count mem' directory ((virt + paging_size) % 2 ^ 32) ((phy + paging_size) % 2 ^ 32)
        flags in
    if is_err res then (res, mem') else rest

-- `paging_map_to`. The difference of the addresses is a signed word: a range of 2 GB or more has a
-- negative number of pages, and none is mapped.
unfoldable pub map_to : Memory → ℕ → (virt phy_start phy_end flags : ℕ) → Status × Memory
map_to mem directory virt phy_start phy_end flags =
    if validate_alignment virt
    then if validate_alignment phy_start
      then if validate_alignment phy_end
        then if ltb phy_end phy_start
          then (einvarg, mem)
          else if ltb (phy_end - phy_start) (2 ^ 31)
          then map_range ((phy_end - phy_start) / paging_size) mem directory virt phy_start flags
          else (all_ok, mem)
        else (einvarg, mem)
      else (einvarg, mem)
    else (einvarg, mem)

-- The rest of `paging_get_physical_addr`, behind its check.
pub physical_at : Memory → ℕ → Code (ℕ × ℕ × ℕ) → Code ℕ
physical_at mem directory (err res) = err res
physical_at mem directory (ok (directory_index, table_index, offset)) =
    let table = entry_page (mem (word_at directory directory_index)) in
    ok (bit_or (entry_page (mem (word_at table table_index))) offset)

-- `paging_get_physical_addr`
unfoldable pub get_physical_addr : Memory → ℕ → ℕ → Code ℕ
unfolding physical_at
get_physical_addr mem directory virt = physical_at mem directory (get_indices virt)
