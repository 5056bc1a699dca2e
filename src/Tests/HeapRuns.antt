-- ===== src/Tests/HeapRuns.antt =====
-- The allocator of src/kernel/heap/heap.c at small tables.
use asif_os.Prelude.{
  ℕ, ◌+◌, ◌-◌, ◌/◌, ◌≤◌, ◌≡◌, ◌≢◌, ◌⊎◌, refl, true, false, some, none, List, [], ◌∷◌, ◌++◌, arith,
  length, replicate, get_or,
}
use asif_os.Kern.Status.{all_ok}
use asif_os.Heap.{
  Heap, create, is_aligned, table_fits, entry_taken, entry_last, malloc, free, block_size,
  get_start_block, get_total_block, entry_free_byte,
}
use asif_os.Kern.Mem.{memsetk}
use asif_os.Heap.Scan.{Found, get_start_block_iff}
use asif_os.Heap.Malloc.{Outcome, malloc-Outcome}
use asif_os.Heap.Release.{Endless, Freed, free-outcome}
use asif_os.Heap.Valid.{IsValid, IsClean, malloc-IsValid}
use asif_os.Heap.Free.{malloc-disjoint, free-malloc, free-malloc_leaks}
use asif_os.Heap.Overrun.{malloc-overruns}

abbrev heap_of : List ℕ → Heap
heap_of table = record { table = table; size = length table; start_addr = 0x1000 }

abbrev six : Heap
six = heap_of (1 ∷ 1 ∷ 1 ∷ 1 ∷ 1 ∷ 1 ∷ [])

abbrev six_two : Heap
six_two = heap_of (0xcf ∷ 0x0f ∷ 1 ∷ 1 ∷ 1 ∷ 1 ∷ [])

abbrev six_three : Heap
six_three = heap_of (0xcf ∷ 0x8f ∷ 0x0f ∷ 1 ∷ 1 ∷ 1 ∷ [])

two_of_six : malloc six 5000 ≡ some (0x1000, six_two)
unfolding malloc entry_taken
two_of_six = refl

three_of_six : malloc six 8193 ≡ some (0x1000, six_three)
unfolding malloc entry_taken
three_of_six = refl

-- An allocation of three blocks leaves its last one taken.
six_leak : free six_three 0x1000 ≡ some (heap_of (1 ∷ 1 ∷ 0x0f ∷ 1 ∷ 1 ∷ 1 ∷ []))
unfolding free entry_taken entry_last
six_leak = refl

six-IsValid : IsValid six
unfolding entry_taken
six-IsValid = record {
  covers = refl;
  clean = (clean, (clean, (clean, (clean, (clean, (clean, tt))))));
  fits = omega arith;
  small = omega arith;
  aligned = refl;
}
  where
    clean : IsClean 1
    clean _ = refl

get_start_block_iff_example :
    ((s : ℕ) → get_start_block six.table 2 ≡ some s → Found 2 six.table s)
    × ((s : ℕ) → Found 2 six.table s → get_start_block six.table 2 ≢ none)
get_start_block_iff_example = get_start_block_iff six.table 2 (omega arith)

six_two-IsValid : IsValid six_two
six_two-IsValid = malloc-IsValid six 5000 six-IsValid two_of_six

malloc-Outcome_example :
    Outcome six
      (get_total_block 5000)
      (get_start_block six.table (get_total_block 5000))
      (malloc six 5000)
malloc-Outcome_example = malloc-Outcome six 5000 six-IsValid (λ e. omega arith)

free-outcome_example :
    (before : List ℕ) × (rest : List ℕ) × (six_two.table ≡ before ++ rest)
    × (length before ≡ (0x1000 - six_two.start_addr) / block_size)
    × ((Endless rest × (free six_two 0x1000 ≡ none))
        ⊎ ((run : List ℕ) × (after : List ℕ) × (rest ≡ run ++ after)
            × Freed run after
            × (h' : Heap) × (free six_two 0x1000 ≡ some h')
            × (h' ≡ record six_two {
              table = before ++ (replicate (length run) entry_free_byte ++ after);
            })
            × IsValid h'))
free-outcome_example = free-outcome six_two 0x1000 six_two-IsValid (omega arith) (omega arith)

free-malloc_example : free six_two 0x1000 ≡ some six
free-malloc_example = free-malloc six 5000 six-IsValid two_of_six (omega arith) (omega arith)

free-malloc_leaks_example :
    (g : Heap) × (free six_three 0x1000 ≡ some g)
    × (entry_taken (get_or six.table ((0x1000 - six.start_addr) / block_size + 2) 0) ≡ false)
    × (entry_taken (get_or g.table ((0x1000 - six.start_addr) / block_size + 2) 0) ≡ true)
free-malloc_leaks_example =
    free-malloc_leaks six 8193 six-IsValid three_of_six (omega arith) (omega arith)

malloc-overruns_example : malloc (heap_of (0x4f ∷ 1 ∷ [])) 5000 ≡ none
unfolding entry_taken
malloc-overruns_example =
    malloc-overruns (heap_of (0x4f ∷ 1 ∷ [])) (0x4f ∷ []) (1 ∷ []) 5000 refl (refl, tt) (refl, tt)
      (omega arith) (omega arith)

six_then_one : malloc six_two 4096 ≡ some (0x3000, heap_of (0xcf ∷ 0x0f ∷ 0x4f ∷ 1 ∷ 1 ∷ 1 ∷ []))
unfolding malloc entry_taken
six_then_one = refl

malloc-disjoint_example : (0x1000 + 5000 ≤ 0x3000) ⊎ (0x3000 + 4096 ≤ 0x1000)
malloc-disjoint_example =
    malloc-disjoint six 5000 4096 six-IsValid two_of_six six_then_one (omega arith) (omega arith)

create-six : create six_two 0x1000 0x7000 (replicate 6 0) 6 ≡ some (all_ok, six)
unfolding create is_aligned table_fits memsetk
create-six = refl
