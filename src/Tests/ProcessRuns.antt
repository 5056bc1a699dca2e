-- ===== src/Tests/ProcessRuns.antt =====
-- An allocation of a process of src/kernel/task/process.c in a small heap.
use asif_os.Prelude.{ℕ, ◌≡◌, refl, arith, none, some, List, [], ◌∷◌}
use asif_os.Kern.Status.{ok}
use asif_os.Heap.{Heap, malloc, entry_taken}
use asif_os.Heap.Valid
use asif_os.Paging.{get_physical_addr}
use asif_os.Process.{Process, find_slot, alloc_malloc, alloc_free}
use asif_os.Process.Alloc.{IsValid, alloc_malloc-translates, alloc_free_null}
use asif_os.Tests.PagingRuns.{boot, boot-IsValid}

abbrev heap_of : List ℕ → Heap
heap_of table = record { table = table; size = 4; start_addr = 0x1000000 }

abbrev four : Heap
four = heap_of (1 ∷ 1 ∷ 1 ∷ 1 ∷ [])

abbrev shell : Process
shell = record { heap = four; mem = boot; directory = 0; allocations = (0xffe000, 1) ∷ (0, 0) ∷ [] }

four-IsValid : Valid.IsValid four
unfolding entry_taken
four-IsValid = record {
  covers = refl;
  clean = (clean, (clean, (clean, (clean, tt))));
  fits = omega arith;
  small = omega arith;
  aligned = refl;
}
  where
    clean : Valid.IsClean 1
    clean _ = refl

shell-IsValid : IsValid shell
shell-IsValid = record {
  heap_valid = four-IsValid;
  at_start = refl;
  below_half = omega arith;
  below_end = omega arith;
  chunk_valid = boot-IsValid;
}

second_slot : find_slot 0 shell.allocations ≡ some 1
unfolding find_slot
second_slot = refl

two_of_four : malloc four 5000 ≡ some (0x1000000, heap_of (0xcf ∷ 0x0f ∷ 1 ∷ 1 ∷ []))
unfolding malloc entry_taken
two_of_four = refl

alloc_malloc-translates_example :
    (shell' : Process) × (alloc_malloc shell 5000 ≡ some (0xffe000, shell'))
    × (get_physical_addr shell'.mem shell'.directory 0xfff000 ≡ ok 0x1001000)
alloc_malloc-translates_example =
    let (shell', done, heap, chunk, bytes) =
      alloc_malloc-translates shell 5000 1 0x1000000 (heap_of (0xcf ∷ 0x0f ∷ 1 ∷ 1 ∷ []))
        shell-IsValid second_slot two_of_four (omega arith) in
    (shell', done, bytes 4096 (omega arith))

alloc_free_null_example : alloc_free shell 0 ≡ none
alloc_free_null_example = alloc_free_null shell 1 second_slot refl
