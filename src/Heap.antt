-- ===== src/Heap.antt =====
-- src/kernel/heap/heap.c: the block allocator. The entry table (`HeapTable`) is the list of its
-- entry bytes, one for each 4 KB block; a read or write beyond it is a fault (`none`). Sizes and
-- addresses are 32-bit words; the table is far shorter than 2 ^ 31 entries, so the `int` counters
-- of the scan are plain numbers, and its `bs = -1` is `none`.
pub mod Scan
pub mod Layout
pub mod Alloc
pub mod Valid
pub mod Malloc
pub mod Release
pub mod Free
pub mod Overrun
pub mod Kheap
use asif_os.Prelude.{
  ℕ, zero, suc, ◌+◌, ◌-◌, ◌*◌, ◌/◌, ◌%◌, ◌^◌, bit_and, Bool, true, false, not, ◌&&◌, ◌||◌, Option,
  none, some, List, [], ◌∷◌, ltb, ◌==◌, if◌then◌else◌, ◌>>=◌, store,
}
use asif_os.Kern.Mem.{memsetk}
use asif_os.Kern.Status.{Status, all_ok, einvarg}

-- NUTTLE_HEAP_BLOCK_SIZE
abbrev pub block_size : ℕ
block_size = 4096

-- HEAP_TABLE_ENTRY_FREE, and the four taken entries that the code writes.
abbrev pub entry_free_byte : ℕ
entry_free_byte = 0x01

abbrev pub entry_only_byte : ℕ
entry_only_byte = 0x4f

abbrev pub entry_first_byte : ℕ
entry_first_byte = 0xcf

abbrev pub entry_next_byte : ℕ
entry_next_byte = 0x8f

abbrev pub entry_end_byte : ℕ
entry_end_byte = 0x0f

-- ENTRY_TAKEN
unfoldable pub entry_taken : ℕ → Bool
entry_taken entry = bit_and entry 0x0f == 0x0f

-- ENTRY_LAST
unfoldable pub entry_last : ℕ → Bool
unfolding entry_taken
entry_last entry = entry_taken entry && not (bit_and entry 0xc0 == 0xc0)

-- `Heap` with its `HeapTable`: `table` is `table -> entries`, `size` is `table -> size`.
pub record Heap : Type 0 where
  pub table : List ℕ
  pub size : ℕ
  pub start_addr : ℕ

-- The test of `validate_ptr_alignment`.
unfoldable pub is_aligned : ℕ → Bool
is_aligned ptr = ptr % block_size == 0

-- `end - start` is a signed difference of pointers, read as an unsigned word.
unfoldable pub table_fits : ℕ → ℕ → ℕ → Bool
table_fits start end size = (end + 2 ^ 32 - start) % 2 ^ 32 / block_size == size

-- `heap_create` over a table of `size` entries.
unfoldable pub create : Heap → ℕ → ℕ → List ℕ → ℕ → Option (Status × Heap)
unfolding is_aligned table_fits
create heap start end entries size =
    if not (is_aligned start) || not (is_aligned end) || not (table_fits start end size)
    then some (einvarg, heap)
    else memsetk entries entry_free_byte size >>= λ table.
        some (all_ok, record { table = table; size = size; start_addr = start })

-- `get_total_block`
pub get_total_block : ℕ → ℕ
get_total_block size = size / block_size + (if size % block_size == 0 then 0 else 1)

-- One round of the loop of `heap_get_start_block` at a free entry `i`: the new `bs` and `bc`.
pub scan_free : ℕ → Option ℕ → ℕ → ℕ × ℕ
scan_free i none bc = (i, bc)
scan_free i (some bs) bc = (bs, bc + 1)

-- The loop of `heap_get_start_block` over the entries that are left, from index `i`.
pub scan : ℕ → List ℕ → ℕ → Option ℕ → ℕ → Option ℕ
unfolding scan_free
scan blocks [] i bs bc = bs
scan blocks (entry ∷ rest) i bs bc =
    if entry_taken entry
    then (let next = scan blocks rest (i + 1) none 0 in next)
    else (let (bs', bc') = scan_free i bs bc in
        let next = scan blocks rest (i + 1) (some bs') bc' in
        if bc' == blocks then some bs' else next)

-- `heap_get_start_block`; `none` is -ENOMEM.
pub get_start_block : List ℕ → ℕ → Option ℕ
unfolding scan
get_start_block table blocks = scan blocks table 0 none 0

-- The loop `while(blocks--) *entries++ = entry;`
pub mark_regular : List ℕ → ℕ → ℕ → Option (List ℕ)
mark_regular table i zero = some table
mark_regular table i (suc blocks) =
    store table i entry_next_byte >>= λ table'. mark_regular table' (i + 1) blocks

-- `heap_mark_block_taken`. With no block at all its loop would count down from -2, far out of the
-- table.
pub mark_block_taken : List ℕ → ℕ → ℕ → Option (List ℕ)
unfolding mark_regular store
mark_block_taken table start zero = none
mark_block_taken table start (suc zero) = store table start entry_only_byte
mark_block_taken table start (suc (suc blocks)) = do
  table1 ← store table start entry_first_byte
  table2 ← mark_regular table1 (start + 1) blocks
  store table2 (start + 1 + blocks) entry_end_byte

-- The loop of `heap_mark_block_free` over the entries from the block on.
pub free_run : List ℕ → Option (List ℕ)
free_run [] = none
free_run (entry ∷ rest) =
    let done = free_run rest in
    if entry_taken entry
    then (if entry_last entry
        then some (entry_free_byte ∷ rest)
        else done >>= λ rest'. some (entry_free_byte ∷ rest'))
    else some (entry ∷ rest)

-- `heap_mark_block_free`
pub mark_block_free : List ℕ → ℕ → Option (List ℕ)
unfolding free_run
mark_block_free table zero = free_run table
mark_block_free [] (suc block) = none
mark_block_free (entry ∷ rest) (suc block) =
    mark_block_free rest block >>= λ rest'. some (entry ∷ rest')

-- `heap_calc_block_address`
pub calc_block_address : Heap → ℕ → ℕ
calc_block_address heap block = (heap.start_addr + block * block_size) % 2 ^ 32

-- `heap_calc_address_block`: an `int` quotient, rounded towards zero; `none` is a negative one.
unfoldable pub calc_address_block : Heap → ℕ → Option ℕ
calc_address_block heap address =
    let diff = (address + 2 ^ 32 - heap.start_addr) % 2 ^ 32 in
    if ltb diff (2 ^ 31)
    then some (diff / block_size)
    else if ltb (2 ^ 32 - diff) block_size
    then some 0
    else none

-- `heap_malloc_blocks`; the address 0 is its failure.
pub malloc_blocks : Heap → ℕ → Option (ℕ × Heap)
unfolding get_start_block mark_block_taken calc_block_address
malloc_blocks heap blocks = elim (get_start_block heap.table blocks) [
  | none ↦ some (0, heap)
  | some start ↦ mark_block_taken heap.table start blocks >>= λ table.
      some (calc_block_address heap start, record heap { table = table })
]

-- `heap_malloc`
unfoldable pub malloc : Heap → ℕ → Option (ℕ × Heap)
unfolding malloc_blocks get_total_block
malloc heap size = if size == 0 then some (0, heap) else malloc_blocks heap (get_total_block size)

-- `heap_free`
unfoldable pub free : Heap → ℕ → Option Heap
unfolding calc_address_block mark_block_free
free heap ptr = calc_address_block heap ptr >>= λ block.
    mark_block_free heap.table block >>= λ table. some (record heap { table = table })
