-- ===== src/Paging/Translate.antt =====
-- What src/kernel/paging/paging.c's `paging_map` does to the translation of addresses.
use asif_os.Prelude.{
  ℕ, ◌+◌, ◌*◌, ◌/◌, ◌%◌, ◌^◌, ◌<◌, ◌≡◌, ◌≢◌, refl, sym, ap, ap₂, ◌∙◌, bit_or, arith, ℕ_discrete,
}
use asif_os.Kern.Status.{all_ok, ok, err, einvarg}
use asif_os.Paging.{
  Memory, write, word_at, entry_page, get_indices, map_entry, map, get_physical_addr, paging_size,
  total_entries,
}
use asif_os.Paging.Words.{
  write_in, write_same, write_other, entry_page_lem, entry_page-bit_or, bit_or-page,
  get_indices_lem,
}

-- The page table that a directory entry points to, and the entry of a page in it.
abbrev pub table : Memory → ℕ → ℕ → ℕ
table mem directory i = entry_page (mem (word_at directory i))

abbrev pub page_word : Memory → ℕ → ℕ → ℕ
page_word mem directory page =
    mem (word_at (table mem directory (page / total_entries)) (page % total_entries))

-- A chunk: words of 32 bits, and a directory and 1024 tables in pages of their own.
pub record IsValid (mem : Memory) (directory : ℕ) : Type 0 where
  pub word_in : (at : ℕ) → mem at < 2 ^ 32
  pub aligned : directory % paging_size ≡ 0
  pub off_directory : (i : ℕ) → i < total_entries → table mem directory i ≢ directory
  pub apart :
      (i j : ℕ)
      → i < total_entries
      → j < total_entries
      → i ≢ j
      → table mem directory i ≢ table mem directory j

table_aligned :
    {mem : Memory} {directory : ℕ}
    → IsValid mem directory
    → (i : ℕ) → table mem directory i % paging_size ≡ 0
table_aligned {mem} {directory} v i =
    let entry = mem (word_at directory i) in
    omega (arith, entry_page_lem entry (v.word_in (word_at directory i)))

pub words_apart :
    (a b i j : ℕ)
    → a % paging_size ≡ 0
    → b % paging_size ≡ 0
    → i < total_entries
    → j < total_entries
    → a ≢ b
    → word_at a i ≢ word_at b j
words_apart a b i j ea eb lt lt' ne = λ e. ne (omega arith)

pub physical_lem :
    (mem : Memory) (directory v : ℕ)
    → v < 2 ^ 32
    → 0 < v
    → get_physical_addr mem directory v
      ≡ ok (bit_or (entry_page (page_word mem directory (v / paging_size))) (v % paging_size))
unfolding get_physical_addr
physical_lem mem directory v lt pos =
    let high : v / 2 ^ 22 ≡ v / paging_size / total_entries = omega arith in
    rw (get_indices_lem v lt pos, high) refl

pub physical_zero : (mem : Memory) (directory : ℕ) → get_physical_addr mem directory 0 ≡ err einvarg
unfolding get_physical_addr get_indices
physical_zero mem directory = refl

-- The two writes of `paging_map`, at the entry `ti` of the table `di`.
module _ (mem : Memory) (directory di ti phy flags : ℕ) (v : IsValid mem directory)
    (di_in : di < total_entries) (ti_in : ti < total_entries) (flags_in : flags < paging_size) where
  abbrev mapped_word : ℕ
  mapped_word = bit_or phy flags

  abbrev first : Memory
  first = write mem (word_at (table mem directory di) ti) mapped_word

  abbrev after : Memory
  after = write first (word_at directory di) (bit_or (mem (word_at directory di)) flags)

  -- A word of a table is not a word of the directory.
  off :
      (i j k : ℕ)
      → i < total_entries
      → j < total_entries
      → k < total_entries
      → word_at (table mem directory i) j ≢ word_at directory k
  off i j k i_in j_in k_in =
      words_apart (table mem directory i) directory j k (table_aligned v i) v.aligned j_in k_in
        (v.off_directory i i_in)

  table_kept : (i : ℕ) → i < total_entries → table after directory i ≡ table mem directory i
  table_kept i i_in = elim (ℕ_discrete i di) [
    | yes same ↦ rw same (
        ap entry_page
          (write_same first (word_at directory di) (bit_or (mem (word_at directory di)) flags))
        ∙ (entry_page-bit_or (mem (word_at directory di)) flags (v.word_in (word_at directory di))
            flags_in).0)
    | no other ↦ ap entry_page (
        write_other first (word_at directory di) (bit_or (mem (word_at directory di)) flags)
          (word_at directory i) (λ e. other (omega arith))
        ∙ write_other mem (word_at (table mem directory di) ti) mapped_word (word_at directory i)
            (λ e. off di ti i di_in ti_in i_in (sym e)))
  ]

  word_new : after (word_at (table mem directory di) ti) ≡ mapped_word
  word_new =
      write_other first (word_at directory di) (bit_or (mem (word_at directory di)) flags)
        (word_at (table mem directory di) ti) (off di ti di di_in ti_in di_in)
      ∙ write_same mem (word_at (table mem directory di) ti) mapped_word

  word_kept :
      (i j : ℕ)
      → i < total_entries
      → j < total_entries
      → (i ≡ di → j ≢ ti)
      → after (word_at (table mem directory i) j) ≡ mem (word_at (table mem directory i) j)
  word_kept i j i_in j_in ne =
      write_other first (word_at directory di) (bit_or (mem (word_at directory di)) flags)
        (word_at (table mem directory i) j) (off i j di i_in j_in di_in)
      ∙ write_other mem (word_at (table mem directory di) ti) mapped_word
          (word_at (table mem directory i) j)
          (elim (ℕ_discrete i di) [
            | yes same ↦ λ e. ne same (omega (arith, ap (table mem directory) same))
            | no other ↦
                words_apart (table mem directory i) (table mem directory di) j ti
                  (table_aligned v i) (table_aligned v di) j_in ti_in
                  (v.apart i di i_in di_in other)
          ])

  after-IsValid : phy < 2 ^ 32 → IsValid after directory
  after-IsValid phy_in = record {
    word_in =
        write_in first (word_at directory di) (bit_or (mem (word_at directory di)) flags) (2 ^ 32)
          (write_in mem (word_at (table mem directory di) ti) mapped_word (2 ^ 32) v.word_in
            (entry_page-bit_or phy flags phy_in flags_in).1)
          (entry_page-bit_or (mem (word_at directory di)) flags (v.word_in (word_at directory di))
            flags_in).1;
    aligned = v.aligned;
    off_directory = λ i i_in e. v.off_directory i i_in (sym (table_kept i i_in) ∙ e);
    apart = λ i j i_in j_in ne e.
        v.apart i j i_in j_in ne (sym (table_kept i i_in) ∙ e ∙ table_kept j j_in);
  }

  page_new :
      (page : ℕ)
      → page / total_entries ≡ di
      → page % total_entries ≡ ti
      → page_word after directory page ≡ mapped_word
  page_new page e e' =
      ap₂ (λ i j. after (word_at (table after directory i) j)) e e'
      ∙ ap (λ t. after (word_at t ti)) (table_kept di di_in)
      ∙ word_new

  page_old :
      (page : ℕ)
      → page / total_entries < total_entries
      → (page / total_entries ≡ di → page % total_entries ≢ ti)
      → page_word after directory page ≡ page_word mem directory page
  page_old page i_in ne =
      ap (λ t. after (word_at t (page % total_entries))) (table_kept (page / total_entries) i_in)
      ∙ word_kept (page / total_entries) (page % total_entries) i_in (omega arith) ne

  physical_new :
      (page offset : ℕ)
      → phy < 2 ^ 32
      → phy % paging_size ≡ 0
      → page ≡ di * total_entries + ti
      → 0 < page
      → offset < paging_size
      → get_physical_addr after directory (page * paging_size + offset) ≡ ok (phy + offset)
  physical_new page offset phy_in aligned e pos lt =
      let whole : entry_page mapped_word ≡ phy =
        (entry_page-bit_or phy flags phy_in flags_in).0 ∙ entry_page_lem phy phy_in ∙ omega arith in
      let at : ℕ = page * paging_size + offset in
      let low : at % paging_size ≡ offset = omega arith in
      physical_lem after directory at (omega arith) (omega arith)
      ∙ ap₂ (λ word low. ok (bit_or (entry_page word) low))
          (page_new (at / paging_size) (omega arith) (omega arith)) low
      ∙ ap (λ (p : ℕ). ok (bit_or p offset)) whole
      ∙ ap ok (bit_or-page phy offset aligned lt)

  physical_old :
      (at : ℕ)
      → at < 2 ^ 32
      → at / paging_size ≢ di * total_entries + ti
      → get_physical_addr after directory at ≡ get_physical_addr mem directory at
  physical_old at at_in ne = elim (ℕ_discrete at 0) [
    | yes null ↦ rw null (physical_zero after directory ∙ sym (physical_zero mem directory))
    | no some_at ↦
        physical_lem after directory at at_in (omega arith)
        ∙ ap (λ word. ok (bit_or (entry_page word) (at % paging_size)))
            (page_old (at / paging_size) (omega arith) (λ e e'. ne (omega arith)))
        ∙ sym (physical_lem mem directory at at_in (omega arith))
  ]

-- `paging_map` of a page that is not the first one, at an aligned physical address: the page is
-- translated to that address from then on, every other page as before, and the chunk stays valid.
pub map_lem :
    (mem : Memory) (directory virt phy flags : ℕ)
    → IsValid mem directory
    → virt < 2 ^ 32
    → 0 < virt
    → virt % paging_size ≡ 0
    → phy < 2 ^ 32
    → phy % paging_size ≡ 0
    → flags < paging_size
    → (mem' : Memory) × (map mem directory virt phy flags ≡ (all_ok, mem'))
      × IsValid mem' directory
      × ((offset : ℕ)
          → offset < paging_size
          → get_physical_addr mem' directory (virt + offset) ≡ ok (phy + offset))
      × ((at : ℕ)
          → at < 2 ^ 32
          → at / paging_size ≢ virt / paging_size
          → get_physical_addr mem' directory at ≡ get_physical_addr mem directory at)
unfolding map map_entry
map_lem mem directory virt phy flags v lt pos e lt' e' flags_in =
    let di : ℕ = virt / 2 ^ 22 in
    let ti : ℕ = virt / 2 ^ 12 % 2 ^ 10 in
    let di_in : di < total_entries = omega arith in
    let ti_in : ti < total_entries = omega arith in
    let made : Memory = after mem directory di ti phy flags v di_in ti_in flags_in in
    let page : ℕ = virt / paging_size in
    let whole : page ≡ di * total_entries + ti = omega arith in
    (
      made,
      rw (e, e', get_indices_lem virt lt pos) refl,
      after-IsValid mem directory di ti phy flags v di_in ti_in flags_in lt',
      λ offset small.
          ap (get_physical_addr made directory) {y = page * paging_size + offset} (omega arith)
          ∙ physical_new mem directory di ti phy flags v di_in ti_in flags_in page offset lt' e'
              whole (omega arith) small,
      λ at at_in ne.
          physical_old mem directory di ti phy flags v di_in ti_in flags_in at at_in
            (λ same. ne (same ∙ sym whole)),
    )
