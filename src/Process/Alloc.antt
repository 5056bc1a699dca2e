-- ===== src/Process/Alloc.antt =====
-- `process_alloc_malloc` and `process_alloc_free` of src/kernel/task/process.c over the heap and the
-- page tables.
use asif_os.Prelude.{
  ℕ, ◌+◌, ◌-◌, ◌*◌, ◌%◌, ◌^◌, ◌≤◌, ◌<◌, ◌≡◌, ap, ap₂, ◌∙◌, arith, Option, none, some, length, ◌==◌,
  if◌then◌else◌, ◌>>=◌, set,
}
use asif_os.Kern.Status.{Status, all_ok, ok}
use asif_os.Heap.{Heap, malloc, free, block_size, calc_address_block, mark_block_free}
use asif_os.Heap.Alloc.{get_total_block_bounds}
use asif_os.Heap.Valid.{malloc-IsValid}
use asif_os.Heap.Free.{malloc-bounds}
use asif_os.Heap.Valid
use asif_os.Paging.{Memory, paging_size, align_addr, map_to, get_physical_addr}
use asif_os.Paging.Translate
use asif_os.Paging.Range.{map_to_lem}
use asif_os.Process.{
  Process, user_heap, kernel_heap, find_slot, heap_virt, calculate_pages, alloc_map, alloc_malloc,
  alloc_free, pointer, alloc_at, free_at, unmap,
}

align_addr_lem :
    (addr : ℕ)
    → addr + paging_size ≤ 2 ^ 32
    → (align_addr addr % paging_size ≡ 0)
      × (addr ≤ align_addr addr)
      × (align_addr addr < addr + paging_size)
unfolding align_addr
align_addr_lem addr le = (ground (arith, le), ground (arith, le), ground (arith, le))

pick_else : {A : Type 0} {ptr : ℕ} → 0 < ptr → (x y : A) → (if ptr == 0 then x else y) ≡ y
pick_else pos x y = ground (arith, pos)

alloc_map_lem :
    (process : Process) (slot size ptr virt : ℕ) (heap : Heap) (mem : Memory)
    → 0 < ptr
    → heap_virt ptr ≡ virt
    → (ptr + size) % 2 ^ 32 ≡ ptr + size
    → map_to process.mem process.directory virt ptr (align_addr (ptr + size)) 7 ≡ (all_ok, mem)
    → alloc_map process slot size (ptr, heap)
      ≡ some (
        virt,
        record process {
          heap = heap;
          mem = mem;
          allocations = set process.allocations slot (virt, calculate_pages size);
        },
      )
unfolding alloc_map
alloc_map_lem process slot size ptr virt heap mem pos at fits mapped =
    let done : ℕ → ℕ → Option (ℕ × Process) = λ v end. some (
      v,
      record process {
        heap = heap;
        mem = (map_to process.mem process.directory v ptr (align_addr end) 7).1;
        allocations = set process.allocations slot (v, calculate_pages size);
      },
    ) in
    pick_else pos (some (0, record process { heap = heap }))
      (done (heap_virt ptr) ((ptr + size) % 2 ^ 32))
    ∙ ap₂ done at fits
    ∙ ap
        (λ (m : Status × Memory). some (
          virt,
          record process {
            heap = heap;
            mem = m.1;
            allocations = set process.allocations slot (virt, calculate_pages size);
          },
        ))
        mapped

alloc_malloc_found :
    (process : Process) (size slot : ℕ) (got : ℕ × Heap)
    → find_slot 0 process.allocations ≡ some slot
    → malloc process.heap size ≡ some got
    → alloc_malloc process size ≡ alloc_map process slot size got
unfolding alloc_malloc alloc_at
alloc_malloc_found process size slot got found allocated =
    ap (alloc_at process size) found ∙ ap (λ m. m >>= alloc_map process slot size) allocated

-- A process over a valid heap at the kernel's address, of less than 2 GB (the kernel's has 100 MB),
-- which ends a page before the address space does, and a valid chunk. The directory's memory is a part of its own.
pub record IsValid (process : Process) : Type 0 where
  pub heap_valid : Valid.IsValid process.heap
  pub at_start : process.heap.start_addr ≡ kernel_heap
  pub below_end : kernel_heap + length process.heap.table * block_size + paging_size < 2 ^ 32
  pub below_half : length process.heap.table * block_size < 2 ^ 31
  pub chunk_valid : Translate.IsValid process.mem process.directory

-- When there is a free slot and the heap has memory, `process_alloc_malloc` returns an address that
-- is as far behind the user heap as the memory is behind the kernel's, and through the page tables
-- every byte from it on, up to the size, is a byte of the allocated memory. The heap and the chunk stay valid.
pub alloc_malloc-translates :
    (process : Process) (size slot ptr : ℕ) (heap : Heap)
    → IsValid process
    → find_slot 0 process.allocations ≡ some slot
    → malloc process.heap size ≡ some (ptr, heap)
    → 0 < ptr
    → (process' : Process) × (alloc_malloc process size
        ≡ some (user_heap + (ptr - kernel_heap), process'))
      × Valid.IsValid process'.heap
      × Translate.IsValid process'.mem process'.directory
      × ((offset : ℕ)
          → offset < size
          → get_physical_addr process'.mem process'.directory
              (user_heap + (ptr - kernel_heap) + offset)
            ≡ ok (ptr + offset))
alloc_malloc-translates process size slot ptr heap v found got pos =
    let (aligned, above, inside) = malloc-bounds process.heap size v.heap_valid got pos in
    let enough = get_total_block_bounds size in
    let room : ptr + size + paging_size < 2 ^ 32 =
      omega (arith, v.at_start, v.below_end, inside, enough.0) in
    let (whole, reaches, close) = align_addr_lem (ptr + size) (omega arith) in
    let virt : ℕ = user_heap + (ptr - kernel_heap) in
    let (mem, mapped, chunk, new, old) =
      map_to_lem process.mem process.directory virt ptr (align_addr (ptr + size)) 7 v.chunk_valid
        (omega arith) (omega (arith, v.at_start)) aligned whole (omega arith) (omega arith)
        (omega (arith, reaches, inside, enough.0, enough.1, v.at_start, v.below_half))
        (omega (arith, v.at_start)) (omega arith) in
    (
      record process {
        heap = heap;
        mem = mem;
        allocations = set process.allocations slot (virt, calculate_pages size);
      },
      alloc_malloc_found process size slot (ptr, heap) found got
          ∙ alloc_map_lem process slot size ptr virt heap mem pos (omega (arith, v.at_start))
              (omega arith) mapped,
      malloc-IsValid process.heap size v.heap_valid got,
      chunk,
      λ offset lt. new offset (omega arith),
    )

behind_null : (heap : Heap) → heap.start_addr ≡ kernel_heap → free heap (2 ^ 32 - 2) ≡ none
unfolding free calc_address_block
behind_null heap at =
    let in_front : calc_address_block heap (2 ^ 32 - 2) ≡ none = ground (arith, at) in
    ap
      (λ block. block >>= λ b.
        mark_block_free heap.table b >>= λ table. some (record heap { table = table }))
      in_front

-- With a free slot in the table, `process_alloc_free` of the null pointer finds that slot, takes the
-- error of the translation for a pointer, and reads the heap's table in front of its start.
pub alloc_free_null :
    (process : Process) (slot : ℕ)
    → find_slot 0 process.allocations ≡ some slot
    → process.heap.start_addr ≡ kernel_heap
    → alloc_free process 0 ≡ none
unfolding alloc_free free_at
alloc_free_null process slot found at =
    ap (free_at process 0) found
    ∙ ap (λ addr. free process.heap (pointer addr) >>= unmap process 0 slot)
        (Translate.physical_zero process.mem process.directory)
    ∙ ap (λ heap. heap >>= unmap process 0 slot) (behind_null process.heap at)
