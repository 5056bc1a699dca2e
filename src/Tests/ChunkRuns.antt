-- ===== src/Tests/ChunkRuns.antt =====
-- A chunk of src/kernel/paging/paging.c from an allocator that gives one page after the other.
use asif_os.Prelude.{
  ℕ, zero, suc, ◌+◌, ◌*◌, ◌/◌, ◌%◌, ◌^◌, ◌≤◌, ◌<◌, ◌≡◌, ◌≢◌, refl, sym, ap₂, ◌∙◌, ap, arith, Option,
  some, List, [], ◌∷◌, length, All, subst,
}
use asif_os.Kern.Status.{ok}
use asif_os.Paging.{Memory, paging_size, total_entries, get_physical_addr}
use asif_os.Paging.Translate.{IsValid}
use asif_os.Paging.Chunk.{new_4gb_chunk}
use asif_os.Paging.Fresh.{IsPage}
use asif_os.Paging.Identity.{Gives}
use asif_os.Paging.Made.{new_4gb_chunk_lem}
use asif_os.Task.Chain.{Apart}

-- Whole pages, one after the other.
abbrev pub give : ℕ → ℕ → Option (ℕ × ℕ)
give s size = some (s, s + (size + 4095) / paging_size * paging_size)

-- No block is given twice.
abbrev pub take_back : ℕ → ℕ → Option ℕ
take_back s block = some s

unfoldable pub pages : ℕ → ℕ → List ℕ
pages s zero = []
pages s (suc n) = s ∷ pages (s + paging_size) n

pub length-pages : (s n : ℕ) → length (pages s n) ≡ n
unfolding pages
length-pages s zero = refl
length-pages s (suc n) = ap suc (length-pages (s + paging_size) n)

pages-Gives : (s n : ℕ) → Gives give s (pages s n) (s + n * paging_size)
unfolding pages
pages-Gives s zero = omega arith
pages-Gives s (suc n) = (
  s + paging_size,
  refl,
  subst (Gives give (s + paging_size) (pages (s + paging_size) n)) (omega arith)
      (pages-Gives (s + paging_size) n),
)

pages-IsPage :
    (s n : ℕ) → s % paging_size ≡ 0 → 0 < s → s + n * paging_size < 2 ^ 32 → All IsPage (pages s n)
unfolding pages
pages-IsPage s zero aligned pos lt = tt
pages-IsPage s (suc n) aligned pos lt = (
  (aligned, pos, omega arith),
  pages-IsPage (s + paging_size) n (omega arith) (omega arith) (omega arith),
)

pages_above : (s n bound : ℕ) → bound < s → All (λ y. y ≢ bound) (pages s n)
unfolding pages
pages_above s zero bound lt = tt
pages_above s (suc n) bound lt =
    (λ e. omega arith, pages_above (s + paging_size) n bound (omega arith))

pages-Apart : (s n : ℕ) → Apart (pages s n)
unfolding pages
pages-Apart s zero = tt
pages-Apart s (suc n) =
    (pages_above (s + paging_size) n s (omega arith), pages-Apart (s + paging_size) n)

abbrev pub no_words : Memory
no_words at = 0

abbrev tables : List ℕ
tables = pages 8192 total_entries

-- The chunk itself is the page behind the tables.
abbrev chunk_page : ℕ
chunk_page = 8192 + total_entries * paging_size

pages_below : (s n bound : ℕ) → s + n * paging_size ≤ bound → All (λ y. y ≢ bound) (pages s n)
unfolding pages
pages_below s zero bound le = tt
pages_below s (suc n) bound le =
    (λ e. omega arith, pages_below (s + paging_size) n bound (omega arith))

-- A chunk from a page on: the directory, the tables and the chunk.
pub give-new_4gb_chunk :
    (s : ℕ)
    → s % paging_size ≡ 0
    → 0 < s
    → s + 1026 * paging_size < 2 ^ 32
    → (mem : Memory) × (new_4gb_chunk give take_back s no_words 3
        ≡ some
            (record { ptr = s + 1025 * paging_size; directory = s }, mem, s + 1026 * paging_size))
      × (mem (s + 1025 * paging_size) ≡ s)
      × IsValid mem s
give-new_4gb_chunk s aligned pos lt =
    let tables : List ℕ = pages (s + paging_size) total_entries in
    let ptr : ℕ = s + paging_size + total_entries * paging_size in
    let (mem, made, word, valid, same, released) =
      new_4gb_chunk_lem give take_back s (s + paging_size) ptr (ptr + paging_size) no_words 3 s ptr
        tables refl (pages-Gives (s + paging_size) total_entries)
        (length-pages (s + paging_size) total_entries) refl
        (
          (aligned, pos, omega arith),
          (
            (omega arith, omega arith, omega arith),
            pages-IsPage (s + paging_size) total_entries (omega arith) (omega arith) (omega arith),
          ),
        )
        (
          (λ e. omega arith, pages_above (s + paging_size) total_entries s (omega arith)),
          (
            pages_below (s + paging_size) total_entries ptr (omega arith),
            pages-Apart (s + paging_size) total_entries,
          ),
        )
        (omega arith) (λ at. omega arith) in
    let at : ptr ≡ s + 1025 * paging_size = omega arith in
    let behind : ptr + paging_size ≡ s + 1026 * paging_size = omega arith in
    (
      mem,
      made ∙ ap₂ (λ ptr last. some (record { ptr = ptr; directory = s }, mem, last)) at behind,
      sym (ap mem at) ∙ word,
      valid,
    )

new_4gb_chunk_lem_example :
    (mem : Memory) × (new_4gb_chunk give take_back 4096 no_words 3
      ≡ some (record { ptr = chunk_page; directory = 4096 }, mem, chunk_page + paging_size))
    × (get_physical_addr mem 4096 0xb8000 ≡ ok 0xb8000)
new_4gb_chunk_lem_example =
    let (mem, made, word, valid, same, released) =
      new_4gb_chunk_lem give take_back 4096 8192 chunk_page (chunk_page + paging_size) no_words 3
        4096 chunk_page tables refl (pages-Gives 8192 total_entries)
        (length-pages 8192 total_entries) refl
        (
          (refl, omega arith, omega arith),
          (
            (refl, omega arith, omega arith),
            pages-IsPage 8192 total_entries refl (omega arith) (omega arith),
          ),
        )
        (
          (λ e. omega arith, pages_above 8192 total_entries 4096 (omega arith)),
          (pages_below 8192 total_entries chunk_page (omega arith), pages-Apart 8192 total_entries),
        )
        (omega arith) (λ at. omega arith) in
    (mem, made, same 0xb8000 (omega arith) (omega arith))
