-- ===== src/Paging/Fresh.antt =====
-- The tables that `paging_get_new_4gb_chunk` of src/kernel/paging/paging.c fills.
use asif_os.Prelude.{
  ℕ, zero, suc, ◌+◌, ◌*◌, ◌/◌, ◌%◌, ◌^◌, ◌≤◌, ◌<◌, ◌≡◌, ◌≢◌, refl, ◌∙◌, arith, bit_or, ℕ_discrete,
}
use asif_os.Paging.{Memory, write, word_at, paging_size, total_entries}
use asif_os.Paging.Words.{write_same, write_other, write_in, entry_page-bit_or}
use asif_os.Paging.Chunk.{clear_page, fill_table, add_table}

-- A block that can be a page: aligned, not null, and a 32-bit address.
abbrev pub IsPage : ℕ → Type 0
IsPage page = (page % paging_size ≡ 0) × (0 < page) × (page < 2 ^ 32)

-- The word of the page `j` of the table `i`.
abbrev pub identity_word : (i j flags : ℕ) → ℕ
identity_word i j flags =
    bit_or ((i * total_entries * paging_size + j * paging_size) % 2 ^ 32) flags

fill_table_frame :
    (n : ℕ) (mem : Memory) (table i j flags at : ℕ)
    → ((k : ℕ) → k < n → at ≢ word_at table (j + k))
    → fill_table n mem table i j flags at ≡ mem at
unfolding fill_table
fill_table_frame zero mem table i j flags at off = refl
fill_table_frame (suc n) mem table i j flags at off =
    fill_table_frame n (write mem (word_at table j) (identity_word i j flags)) table i (j + 1) flags
      at (λ k lt e. off (suc k) (omega arith) (omega arith))
    ∙ write_other mem (word_at table j) (identity_word i j flags) at
        (λ e. off 0 (omega arith) (omega arith))

fill_table_word :
    (n : ℕ) (mem : Memory) (table i j flags k : ℕ)
    → j ≤ k
    → k < j + n
    → fill_table n mem table i j flags (word_at table k) ≡ identity_word i k flags
unfolding fill_table
fill_table_word zero mem table i j flags k le lt = absurd (omega arith)
fill_table_word (suc n) mem table i j flags k le lt =
    let mem' : Memory = write mem (word_at table j) (identity_word i j flags) in
    elim (ℕ_discrete k j) [
      | yes e ↦
          fill_table_frame n mem' table i (j + 1) flags (word_at table k) (λ m m_in e'. omega arith)
          ∙ rw e (write_same mem (word_at table j) (identity_word i j flags))
      | no ne ↦ fill_table_word n mem' table i (j + 1) flags k (omega arith) (omega arith)
    ]

fill_table_in :
    (n : ℕ) (mem : Memory) (table i j flags : ℕ)
    → flags < paging_size
    → ((at : ℕ) → mem at < 2 ^ 32)
    → (at : ℕ) → fill_table n mem table i j flags at < 2 ^ 32
unfolding fill_table
fill_table_in zero mem table i j flags few word_in = word_in
fill_table_in (suc n) mem table i j flags few word_in =
    fill_table_in n (write mem (word_at table j) (identity_word i j flags)) table i (j + 1) flags
      few
      (write_in mem (word_at table j) (identity_word i j flags) (2 ^ 32) word_in
        (entry_page-bit_or ((i * total_entries * paging_size + j * paging_size) % 2 ^ 32) flags
          (omega arith) few).1)

pub clear_page_frame :
    (mem : Memory) (page at : ℕ)
    → at / paging_size ≢ page / paging_size
    → page % paging_size ≡ 0
    → clear_page mem page at ≡ mem at
unfolding clear_page
clear_page_frame mem page at ne aligned = ground (arith, ne)

pub clear_page_in :
    (mem : Memory) (page : ℕ)
    → ((at : ℕ) → mem at < 2 ^ 32)
    → (at : ℕ) → clear_page mem page at < 2 ^ 32
unfolding clear_page
clear_page_in mem page word_in at = ground (arith, word_in at)

module _ (mem : Memory) (directory table i flags : ℕ) (table_page : IsPage table)
    (directory_page : IsPage directory) (apart : table ≢ directory) (i_in : i < total_entries)
    (flags_in : flags < paging_size) where
  pub add_table_entry :
      add_table mem directory table i flags (word_at directory i) ≡ bit_or table flags
  add_table_entry =
      write_same (fill_table total_entries (clear_page mem table) table i 0 flags)
        (word_at directory i) (bit_or table flags)

  pub add_table_word :
      (j : ℕ)
      → j < total_entries
      → add_table mem directory table i flags (word_at table j) ≡ identity_word i j flags
  add_table_word j j_in =
      write_other (fill_table total_entries (clear_page mem table) table i 0 flags)
        (word_at directory i) (bit_or table flags) (word_at table j) (λ e. apart (omega arith))
      ∙ fill_table_word total_entries (clear_page mem table) table i 0 flags j (omega arith)
          (omega arith)

  pub add_table_frame :
      (at : ℕ)
      → at / paging_size ≢ table / paging_size
      → at ≢ word_at directory i
      → add_table mem directory table i flags at ≡ mem at
  add_table_frame at off off' =
      write_other (fill_table total_entries (clear_page mem table) table i 0 flags)
        (word_at directory i) (bit_or table flags) at off'
      ∙ fill_table_frame total_entries (clear_page mem table) table i 0 flags at
          (λ k lt e. off (omega arith))
      ∙ clear_page_frame mem table at off table_page.0

  pub add_table_in :
      ((at : ℕ) → mem at < 2 ^ 32) → (at : ℕ) → add_table mem directory table i flags at < 2 ^ 32
  add_table_in word_in =
      write_in (fill_table total_entries (clear_page mem table) table i 0 flags)
        (word_at directory i) (bit_or table flags) (2 ^ 32)
        (fill_table_in total_entries (clear_page mem table) table i 0 flags flags_in
          (clear_page_in mem table word_in))
        (entry_page-bit_or table flags table_page.2 flags_in).1
