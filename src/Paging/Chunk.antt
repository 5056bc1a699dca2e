-- ===== src/Paging/Chunk.antt =====
-- The creation, the release and the switch of a paging chunk in src/kernel/paging/paging.c. The
-- allocator is a parameter (0 is no memory), and a write through the null pointer is a fault.
use asif_os.Prelude.{
  ℕ, zero, suc, ◌+◌, ◌*◌, ◌%◌, ◌^◌, Option, none, some, bit_or, ◌==◌, leb, ltb, ◌&&◌, if◌then◌else◌,
  ◌>>=◌,
}
use asif_os.Paging.{Memory, write, word_at, entry_page, paging_size, total_entries}

-- `memsetk` of `zmallock`, of one page.
unfoldable pub clear_page : Memory → ℕ → Memory
clear_page mem page at = if leb page at && ltb at (page + paging_size) then 0 else mem at

-- The inner loop of `paging_get_new_4gb_chunk` over the table `i`, `n` entries before its end.
unfoldable pub fill_table : (n : ℕ) → Memory → (table i j flags : ℕ) → Memory
fill_table zero mem table i j flags = mem
fill_table (suc n) mem table i j flags =
    let page = (i * total_entries * paging_size + j * paging_size) % 2 ^ 32 in
    fill_table n (write mem (word_at table j) (bit_or page flags)) table i (j + 1) flags

-- A table for the directory entry `i`.
abbrev pub add_table : Memory → (directory table i flags : ℕ) → Memory
add_table mem directory table i flags =
    write (fill_table total_entries (clear_page mem table) table i 0 flags) (word_at directory i)
      (bit_or table flags)

-- `PagingChunk`, with its block.
pub record PagingChunk : Type 0 where
  pub ptr : ℕ
  pub directory : ℕ

module _ {S : Type 0} (malloc : S → ℕ → Option (ℕ × S)) (free : S → ℕ → Option S) where
  -- The outer loop of `paging_get_new_4gb_chunk`, `n` tables before its end.
  unfoldable pub add_tables : (n : ℕ) → S → Memory → (directory i flags : ℕ) → Option (Memory × S)
  unfolding fill_table
  add_tables zero s mem directory i flags = some (mem, s)
  add_tables (suc n) s mem directory i flags = malloc s paging_size >>= λ (table, s').
      let rest = add_tables n s' (add_table mem directory table i flags) directory (i + 1) flags in
      if table == 0 then none else rest

  -- `paging_get_new_4gb_chunk`
  unfoldable pub new_4gb_chunk : S → Memory → (flags : ℕ) → Option (PagingChunk × Memory × S)
  unfolding add_tables
  new_4gb_chunk s mem flags = malloc s paging_size >>= λ (directory, s').
      let tables = add_tables total_entries s' (clear_page mem directory) directory 0 flags in
      let made = tables >>= λ (mem', s'').
      -- `sizeof(PagingChunk)` is 4.
      malloc s'' 4 >>= λ (ptr, last).
      if ptr == 0
      then none
      else some (record { ptr = ptr; directory = directory }, write mem' ptr directory, last) in
      if directory == 0 then none else made

  -- The loop of `paging_free_4gb_chunk`, `n` tables before its end.
  unfoldable pub free_tables : (n : ℕ) → S → Memory → (directory i : ℕ) → Option S
  free_tables zero s mem directory i = some s
  free_tables (suc n) s mem directory i = free s (entry_page (mem (word_at directory i))) >>= λ s'.
      free_tables n s' mem directory (i + 1)

  -- `paging_free_4gb_chunk`
  unfoldable pub free_4gb_chunk : S → Memory → PagingChunk → Option S
  unfolding free_tables
  free_4gb_chunk s mem chunk =
      let freed = free_tables total_entries s mem chunk.directory 0 >>= λ s'.
      free s' chunk.directory >>= λ s''. free s'' chunk.ptr in
      if chunk.ptr == 0 then some s else freed

-- `paging_get_directory`, and the directory that `paging_switch` loads.
abbrev pub switch : PagingChunk → ℕ
switch chunk = chunk.directory
