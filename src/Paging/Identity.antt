-- ===== src/Paging/Identity.antt =====
-- What `paging_get_new_4gb_chunk` of src/kernel/paging/paging.c makes: every address stands for itself.
use asif_os.Prelude.{
  All-zip, ℕ, zero, suc, ◌+◌, ◌*◌, ◌/◌, ◌%◌, ◌^◌, ◌≤◌, ◌<◌, ◌≡◌, ◌≢◌, refl, sym, ap, ◌∙◌, arith,
  Option, none, some, List, [], ◌∷◌, length, All, bit_or, ◌>>=◌, ◌==◌, if◌then◌else◌, pick_else,
  get_or, All-get_or, dec_lt,
}
use asif_os.Kern.Status.{ok}
use asif_os.Paging.{Memory, word_at, entry_page, paging_size, total_entries, get_physical_addr}
use asif_os.Paging.Words.{entry_page-bit_or, entry_page_lem, bit_or-page}
use asif_os.Paging.Translate.{IsValid, table, page_word, physical_lem}
use asif_os.Paging.Chunk.{add_table, add_tables}
use asif_os.Paging.Fresh.{
  IsPage, identity_word, add_table_entry, add_table_word, add_table_frame, add_table_in,
}
use asif_os.Task.Chain.{Apart}

-- The tables of a directory from the entry `i` on, each with the identity.
abbrev pub Holds : Memory → (directory i flags : ℕ) → List ℕ → Type 0
Holds mem directory i flags [] = Unit {0}
Holds mem directory i flags (t ∷ ts) =
    (mem (word_at directory i) ≡ bit_or t flags)
    × ((j : ℕ) → j < total_entries → mem (word_at t j) ≡ identity_word i j flags)
    × Holds mem directory (i + 1) flags ts

pub Holds-at :
    (mem : Memory) (directory i flags : ℕ) (ts : List ℕ) (n k : ℕ)
    → Holds mem directory i flags ts
    → n < length ts
    → k ≡ i + n
    → (mem (word_at directory k) ≡ bit_or (get_or ts n 0) flags)
      × ((j : ℕ) → j < total_entries → mem (word_at (get_or ts n 0) j) ≡ identity_word k j flags)
Holds-at mem directory i flags [] n k h lt e = absurd (omega arith)
Holds-at mem directory i flags (t ∷ ts) zero k (entry, words, h) lt e =
    let e' : k ≡ i = omega arith in rw e' (entry, words)
Holds-at mem directory i flags (t ∷ ts) (suc n) k (entry, words, h) lt e =
    Holds-at mem directory (i + 1) flags ts n k h (omega arith) (omega arith)

module _ {S : Type 0} (malloc : S → ℕ → Option (ℕ × S)) where
  -- The blocks of a page that the allocator gives, one after the other.
  abbrev pub Gives : S → List ℕ → S → Type 0
  Gives s [] last = s ≡ last
  Gives s (block ∷ blocks) last =
      (next : S) × (malloc s paging_size ≡ some (block, next)) × Gives next blocks last

module _ {S : Type 0} (malloc : S → ℕ → Option (ℕ × S)) (free : S → ℕ → Option S) where
  pub record Added (s' : S) (mem : Memory) (directory i flags : ℕ) (ts : List ℕ)
      (run : Option (Memory × S)) : Type 0 where
    pub made : Memory
    pub answers : run ≡ some (made, s')
    pub holds : Holds made directory i flags ts
    pub frame :
        (at : ℕ)
        → All (λ t. at / paging_size ≢ t / paging_size) ts
        → ((k : ℕ) → k < length ts → at ≢ word_at directory (i + k))
        → made at ≡ mem at
    pub word_in : (at : ℕ) → made at < 2 ^ 32

  -- A page of its own is not the page of another.
  other_pages :
      (t : ℕ) (ts : List ℕ) (at : ℕ)
      → IsPage t
      → at / paging_size ≡ t / paging_size
      → All IsPage ts
      → All (λ y. y ≢ t) ts
      → All (λ y. at / paging_size ≢ y / paging_size) ts
  other_pages t ts at page here pages apart =
      All-zip ts (λ y y_page ne e. ne (omega (arith, y_page, page))) pages apart

  add_tables_done :
      (s : S) (mem : Memory) (directory i flags : ℕ)
      → add_tables malloc free 0 s mem directory i flags ≡ some (mem, s)
  unfolding add_tables
  add_tables_done s mem directory i flags = refl

  -- One round of the outer loop, where there is memory for its table.
  add_tables_step :
      (n : ℕ) (s next : S) (mem : Memory) (directory i flags t : ℕ)
      → malloc s paging_size ≡ some (t, next)
      → t ≢ 0
      → add_tables malloc free (suc n) s mem directory i flags
        ≡ add_tables malloc free n next (add_table mem directory t i flags) directory (i + 1) flags
  unfolding add_tables
  add_tables_step n s next mem directory i flags t gives null =
      ap
        (λ m. m >>= λ (table, s').
          let rest =
            add_tables malloc free n s' (add_table mem directory table i flags) directory (i + 1)
              flags in
          if table == 0 then none else rest)
        gives
      ∙ pick_else null _ _

  pub add_tables-Added :
      (ts : List ℕ) (s s' : S) (mem : Memory) (directory i flags : ℕ)
      → Gives malloc s ts s'
      → All IsPage ts
      → Apart ts
      → All (λ t. t ≢ directory) ts
      → IsPage directory
      → i + length ts ≤ total_entries
      → flags < paging_size
      → ((at : ℕ) → mem at < 2 ^ 32)
      → Added s' mem directory i flags ts
          (add_tables malloc free (length ts) s mem directory i flags)
  add_tables-Added [] s s' mem directory i flags given pages apart off d_page le few word_in =
      record {
        made = mem;
        answers = add_tables_done s mem directory i flags ∙ ap (λ t. some (mem, t)) given;
        holds = tt;
        frame = λ at out out'. refl;
        word_in = word_in;
      }
  add_tables-Added (t ∷ ts) s s' mem directory i flags (next, gives, given) (page, pages)
        (here, apart) (ne, off) d_page le few word_in =
      let mem1 : Memory = add_table mem directory t i flags in
      let i_in : i < total_entries = omega (arith, le) in
      let word_in1 = add_table_in mem directory t i flags page d_page ne i_in few word_in in
      let rest =
        add_tables-Added ts next s' mem1 directory (i + 1) flags given pages apart off d_page
          (omega (arith, le)) few word_in1 in
      let null : t ≢ 0 = λ e. omega (arith, page) in
      record {
        made = rest.made;
        answers =
            add_tables_step (length ts) s next mem directory i flags t gives null ∙ rest.answers;
        holds = (
          rest.frame (word_at directory i)
                (other_pages directory ts (word_at directory i) d_page (omega (arith, d_page)) pages
                  off)
                (λ k k_in e. omega arith)
              ∙ add_table_entry mem directory t i flags page d_page ne i_in few,
          λ j j_in.
              rest.frame (word_at t j)
                (other_pages t ts (word_at t j) page (omega (arith, page)) pages here)
                (λ k k_in e. ne (omega (arith, page, d_page, le)))
              ∙ add_table_word mem directory t i flags page d_page ne i_in few j j_in,
          rest.holds,
        );
        frame = λ at out out'.
            rest.frame at out.1 (λ k k_in e. out' (suc k) (omega arith) (omega arith))
            ∙ add_table_frame mem directory t i flags page d_page ne i_in few at out.0
                (λ e. out' 0 (omega arith) (omega arith));
        word_in = rest.word_in;
      }

-- Two entries of a list of different blocks.
Apart-before :
    (xs : List ℕ) (m n : ℕ) → Apart xs → m < n → n < length xs → get_or xs n 0 ≢ get_or xs m 0
Apart-before [] m n apart lt lt' = absurd (omega arith)
Apart-before (x ∷ xs) zero zero (out, apart) lt lt' = absurd (omega arith)
Apart-before (x ∷ xs) zero (suc n) (out, apart) lt lt' =
    All-get_or (λ y. y ≢ x) xs n 0 out (omega arith)
Apart-before (x ∷ xs) (suc m) zero (out, apart) lt lt' = absurd (omega arith)
Apart-before (x ∷ xs) (suc m) (suc n) (out, apart) lt lt' =
    Apart-before xs m n apart (omega arith) (omega arith)

Apart-at :
    (xs : List ℕ) (m n : ℕ)
    → Apart xs
    → m < length xs
    → n < length xs
    → m ≢ n
    → get_or xs m 0 ≢ get_or xs n 0
Apart-at xs m n apart m_in n_in ne = elim (dec_lt m n) [
  | yes lt ↦ λ e. Apart-before xs m n apart lt n_in (sym e)
  | no ge ↦ Apart-before xs n m apart (omega (arith, ge, ne)) m_in
]

-- A directory that holds a table for every entry, each with the identity, translates every address
-- to itself.
module _ (mem : Memory) (directory flags : ℕ) (ts : List ℕ) (h : Holds mem directory 0 flags ts)
    (all : length ts ≡ total_entries) (d_page : IsPage directory) (pages : All IsPage ts)
    (off : All (λ t. t ≢ directory) ts) (apart : Apart ts) (few : flags < paging_size)
    (word_in : (at : ℕ) → mem at < 2 ^ 32) where
  pub Holds-table : (i : ℕ) → i < total_entries → table mem directory i ≡ get_or ts i 0
  Holds-table i i_in =
      let t : ℕ = get_or ts i 0 in
      let (aligned, pos, lt) = All-get_or IsPage ts i 0 pages (omega (arith, all)) in
      ap entry_page (Holds-at mem directory 0 flags ts i i h (omega (arith, all)) (omega arith)).0
      ∙ (entry_page-bit_or t flags lt few).0
      ∙ entry_page_lem t lt
      ∙ omega (arith, aligned)

  pub Holds-IsValid : IsValid mem directory
  Holds-IsValid = record {
    word_in = word_in;
    aligned = d_page.0;
    off_directory = λ i i_in e.
        All-get_or (λ t. t ≢ directory) ts i 0 off (omega (arith, all))
          (sym (Holds-table i i_in) ∙ e);
    apart = λ i j i_in j_in ne e.
        Apart-at ts i j apart (omega (arith, all)) (omega (arith, all)) ne
          (sym (Holds-table i i_in) ∙ e ∙ Holds-table j j_in);
  }

  pub Holds-physical : (v : ℕ) → v < 2 ^ 32 → 0 < v → get_physical_addr mem directory v ≡ ok v
  Holds-physical v lt pos =
      let i : ℕ = v / paging_size / total_entries in
      let j : ℕ = v / paging_size % total_entries in
      let page : ℕ = v / paging_size * paging_size in
      let i_in : i < total_entries = omega (arith, lt) in
      let word : page_word mem directory (v / paging_size) ≡ bit_or page flags =
        ap (λ t. mem (word_at t j)) (Holds-table i i_in)
        ∙ (Holds-at mem directory 0 flags ts i i h (omega (arith, all)) (omega arith)).1 j
            (omega arith)
        ∙ ap (λ p. bit_or p flags) (omega (arith, lt)) in
      let translated : entry_page (page_word mem directory (v / paging_size)) ≡ page =
        ap entry_page word
        ∙ (entry_page-bit_or page flags (omega (arith, lt)) few).0
        ∙ entry_page_lem page (omega (arith, lt))
        ∙ omega arith in
      physical_lem mem directory v lt pos
      ∙ ap (λ p. ok (bit_or p (v % paging_size))) translated
      ∙ ap ok (bit_or-page page (v % paging_size) (omega arith) (omega arith) ∙ omega arith)
