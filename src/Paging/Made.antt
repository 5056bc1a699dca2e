-- ===== src/Paging/Made.antt =====
-- `paging_get_new_4gb_chunk` and `paging_free_4gb_chunk` of src/kernel/paging/paging.c together.
use asif_os.Prelude.{
  All-zip, ℕ, suc, ◌+◌, ◌^◌, ◌<◌, ◌≡◌, ◌≢◌, refl, sym, ap, ap₂, ◌∙◌, arith, Option, none, some,
  List, [], ◌∷◌, ◌++◌, length, All, ◌>>=◌, ◌==◌, if◌then◌else◌, pick_else, get_or, >>=-assoc,
  >>=-some, fun_ext,
}
use asif_os.Kern.Status.{ok}
use asif_os.Paging.{
  Memory, write, word_at, entry_page, paging_size, total_entries, get_physical_addr,
}
use asif_os.Paging.Words.{write_same, write_other, write_in}
use asif_os.Paging.Translate.{IsValid, table}
use asif_os.Paging.Chunk.{
  PagingChunk, clear_page, add_tables, new_4gb_chunk, free_tables, free_4gb_chunk,
}
use asif_os.Paging.Fresh.{IsPage, clear_page_in}
use asif_os.Paging.Identity.{
  Holds, Gives, add_tables-Added, Holds-table, Holds-IsValid, Holds-physical,
}
use asif_os.Task.Chain.{Apart}

-- The tables are held by a memory that has the same words in the directory and in them.
Holds-frame :
    (mem mem' : Memory) (directory i flags : ℕ) (ts : List ℕ)
    → ((k : ℕ) → k < i + length ts → mem' (word_at directory k) ≡ mem (word_at directory k))
    → All (λ t. (j : ℕ) → j < total_entries → mem' (word_at t j) ≡ mem (word_at t j)) ts
    → Holds mem directory i flags ts
    → Holds mem' directory i flags ts
Holds-frame mem mem' directory i flags [] same all h = tt
Holds-frame mem mem' directory i flags (t ∷ ts) same (kept, all) (entry, words, h) = (
  same i (omega arith) ∙ entry,
  λ j j_in. kept j j_in ∙ words j j_in,
  Holds-frame mem mem' directory (i + 1) flags ts (λ k lt. same k (omega arith)) all h,
)

module _ {S : Type 0} (malloc : S → ℕ → Option (ℕ × S)) (free : S → ℕ → Option S) where
  -- Releases one after the other.
  abbrev pub frees : S → List ℕ → Option S
  frees s [] = some s
  frees s (block ∷ blocks) = free s block >>= λ s'. frees s' blocks

  pub frees-append :
      (s : S) (xs ys : List ℕ) → frees s (xs ++ ys) ≡ (frees s xs >>= λ s'. frees s' ys)
  frees-append s [] ys = refl
  frees-append s (x ∷ xs) ys =
      ap (λ f. free s x >>= f) (fun_ext (λ s'. frees-append s' xs ys))
      ∙ sym (>>=-assoc (free s x) (λ s'. frees s' xs) (λ s'. frees s' ys))

  -- The last statements, behind the allocation of the chunk itself.
  abbrev finish : ℕ → Memory → ℕ × S → Option (PagingChunk × Memory × S)
  finish directory mem (ptr, last) =
      if ptr == 0
      then none
      else some (record { ptr = ptr; directory = directory }, write mem ptr directory, last)

  -- The two allocations around the tables.
  new_4gb_chunk_step :
      (s s1 s2 s3 : S) (mem mem' : Memory) (flags directory ptr : ℕ)
      → malloc s paging_size ≡ some (directory, s1)
      → directory ≢ 0
      → add_tables malloc free total_entries s1 (clear_page mem directory) directory 0 flags
        ≡ some (mem', s2)
      → malloc s2 4 ≡ some (ptr, s3)
      → ptr ≢ 0
      → new_4gb_chunk malloc free s mem flags
        ≡ some (record { ptr = ptr; directory = directory }, write mem' ptr directory, s3)
  unfolding new_4gb_chunk
  new_4gb_chunk_step s s1 s2 s3 mem mem' flags directory ptr first d_null tables second p_null =
      ap
        (λ m. m >>= λ (directory, s').
          let tables =
            add_tables malloc free total_entries s' (clear_page mem directory) directory 0 flags in
          let made = tables >>= λ (mem', s''). malloc s'' 4 >>= finish directory mem' in
          if directory == 0 then none else made)
        first
      ∙ pick_else d_null _ _
      ∙ ap (λ m. m >>= λ (mem', s''). malloc s'' 4 >>= finish directory mem') tables
      ∙ ap (λ m. m >>= finish directory mem') second
      ∙ pick_else p_null _ _

  free_tables_lem :
      (ts rest : List ℕ) (s : S) (mem : Memory) (directory i : ℕ)
      → ((k : ℕ) → k < length ts → table mem directory (i + k) ≡ get_or ts k 0)
      → (free_tables malloc free (length ts) s mem directory i >>= λ s'. frees s' rest)
        ≡ frees s (ts ++ rest)
  unfolding free_tables
  free_tables_lem [] rest s mem directory i same = refl
  free_tables_lem (t ∷ ts) rest s mem directory i same =
      >>=-assoc (free s (entry_page (mem (word_at directory i))))
        (λ s'. free_tables malloc free (length ts) s' mem directory (i + 1)) (λ s'. frees s' rest)
      ∙ ap₂ (λ t f. free s t >>= f) (ap (table mem directory) (omega arith) ∙ same 0 (omega arith))
          (fun_ext (λ s'.
            free_tables_lem ts rest s' mem directory (i + 1)
              (λ k lt. ap (table mem directory) (omega arith) ∙ same (suc k) (omega arith))))

  pub free_4gb_chunk_step :
      (ts : List ℕ) (s : S) (mem : Memory) (directory ptr : ℕ)
      → length ts ≡ total_entries
      → ptr ≢ 0
      → ((k : ℕ) → k < length ts → table mem directory k ≡ get_or ts k 0)
      → free_4gb_chunk malloc free s mem (record { ptr = ptr; directory = directory })
        ≡ frees s (ts ++ directory ∷ ptr ∷ [])
  unfolding free_4gb_chunk
  free_4gb_chunk_step ts s mem directory ptr all p_null same =
      pick_else p_null _ _
      ∙ ap₂ (λ n k. free_tables malloc free n s mem directory 0 >>= k) (sym all)
          (fun_ext (λ s'.
            ap (λ k. free s' directory >>= k) (fun_ext (λ s''. sym (>>=-some (free s'' ptr))))))
      ∙ free_tables_lem ts (directory ∷ ptr ∷ []) s mem directory 0
          (λ k lt. ap (table mem directory) (omega arith) ∙ same k lt)

  -- The allocator gives a directory, 1024 tables and a block for the chunk, each an aligned page below
  -- 2 ^ 32 that is not null, no two of them the same; the flags are below the page size, and the words
  -- of memory below 2 ^ 32. Then paging_get_new_4gb_chunk makes a valid chunk with a word for its directory, in which every address
  -- but 0 translates to itself, and paging_free_4gb_chunk of it releases the tables, the directory and
  -- the chunk, each once and nothing else.
  pub new_4gb_chunk_lem :
      (s s1 s2 s3 : S) (mem : Memory) (flags directory ptr : ℕ) (ts : List ℕ)
      → malloc s paging_size ≡ some (directory, s1)
      → Gives malloc s1 ts s2
      → length ts ≡ total_entries
      → malloc s2 4 ≡ some (ptr, s3)
      → All IsPage (directory ∷ ptr ∷ ts)
      → Apart (directory ∷ ptr ∷ ts)
      → flags < paging_size
      → ((at : ℕ) → mem at < 2 ^ 32)
      → (mem' : Memory) × (new_4gb_chunk malloc free s mem flags
          ≡ some (record { ptr = ptr; directory = directory }, mem', s3))
        × (mem' ptr ≡ directory)
        × IsValid mem' directory
        × ((v : ℕ) → v < 2 ^ 32 → 0 < v → get_physical_addr mem' directory v ≡ ok v)
        × ((t : S)
            → free_4gb_chunk malloc free t mem' (record { ptr = ptr; directory = directory })
              ≡ frees t (ts ++ directory ∷ ptr ∷ []))
  new_4gb_chunk_lem s s1 s2 s3 mem flags directory ptr ts first given all second
        (d_page, (p_page, pages)) ((p_ne, d_apart), (p_apart, apart)) few word_in =
      let added =
        add_tables-Added malloc free ts s1 s2 (clear_page mem directory) directory 0 flags given
          pages apart d_apart d_page (omega (arith, all)) few
          (clear_page_in mem directory word_in) in
      let mem' : Memory = write added.made ptr directory in
      let d_null : directory ≢ 0 = λ e. omega (arith, d_page) in
      let p_null : ptr ≢ 0 = λ e. omega (arith, p_page) in
      let done =
        ap (λ n. add_tables malloc free n s1 (clear_page mem directory) directory 0 flags) (sym all)
        ∙ added.answers in
      let same : (k : ℕ)
          → k < total_entries
          → mem' (word_at directory k) ≡ added.made (word_at directory k) =
        λ k k_in.
          write_other added.made ptr directory (word_at directory k)
            (λ e. p_ne (omega (arith, d_page, p_page))) in
      let kept =
        All-zip {P = IsPage} {Q = λ t. t ≢ ptr}
          {R = λ t. (j : ℕ) → j < total_entries → mem' (word_at t j) ≡ added.made (word_at t j)} ts
          (λ t page ne j j_in.
            write_other added.made ptr directory (word_at t j)
              (λ e. ne (omega (arith, page, p_page))))
          pages p_apart in
      let holds =
        Holds-frame added.made mem' directory 0 flags ts (λ k lt. same k (omega (arith, all))) kept
          added.holds in
      let word_in' = write_in added.made ptr directory (2 ^ 32) added.word_in d_page.2 in
      (
        mem',
        new_4gb_chunk_step s s1 s2 s3 mem added.made flags directory ptr first d_null done second
            p_null,
        write_same added.made ptr directory,
        Holds-IsValid mem' directory flags ts holds all d_page pages d_apart apart few word_in',
        Holds-physical mem' directory flags ts holds all d_page pages d_apart apart few word_in',
        λ t. free_4gb_chunk_step ts t mem' directory ptr all p_null (λ k lt.
            Holds-table mem' directory flags ts holds all d_page pages d_apart apart few word_in' k
              (omega (arith, all))),
      )
