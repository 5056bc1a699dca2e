-- ===== src/Process.antt =====
-- src/kernel/task/process.c: the memory that a user program allocates. A process is modelled with
-- what these functions reach: the kernel's heap, the memory of the page tables, the directory of its
-- task, and its table of allocations.
pub mod Alloc
pub mod Map
pub mod Segments
pub mod Mapped
pub mod Kernel
pub mod Load
pub mod Loaded
pub mod Started
pub mod Freed
use asif_os.Prelude.{
  ℕ, ◌+◌, ◌-◌, ◌*◌, ◌/◌, ◌%◌, ◌^◌, Option, none, some, List, [], ◌∷◌, ◌==◌, if◌then◌else◌, ◌>>=◌,
  set, get_or,
}
use asif_os.Kern.Status.{Status, Code, ok, err}
use asif_os.Heap.{Heap, malloc, free}
use asif_os.Paging.{Memory, paging_size, align_addr, map_to, get_physical_addr}

-- NUTTLE_USER_HEAP_VIRT_ADDR and NUTTLE_KERNEL_HEAP_START
abbrev pub user_heap : ℕ
user_heap = 0xffe000

abbrev pub kernel_heap : ℕ
kernel_heap = 0x1000000

-- `NuttleProcess`; an allocation is its address and its pages.
pub record Process : Type 0 where
  pub heap : Heap
  pub mem : Memory
  pub directory : ℕ
  pub allocations : List (ℕ × ℕ)

-- The first allocation at an address: `process_find_allocation_slot`, and at 0
-- `process_get_free_allocation_slot`.
unfoldable pub find_slot : ℕ → List (ℕ × ℕ) → Option ℕ
find_slot addr [] = none
find_slot addr (allocation ∷ allocations) =
    let rest = find_slot addr allocations >>= λ slot. some (slot + 1) in
    if allocation.0 == addr then some 0 else rest

-- `process_calculate_pages`
abbrev pub calculate_pages : ℕ → ℕ
calculate_pages size =
    if size % paging_size == 0 then size / paging_size else size / paging_size + 1

-- `heap_virt` of `process_alloc_malloc`
abbrev pub heap_virt : ℕ → ℕ
heap_virt ptr = (user_heap + (ptr + 2 ^ 32 - kernel_heap)) % 2 ^ 32

-- `process_alloc_malloc` behind the allocation. The status of the mapping is not looked at; its
-- flags are present, writable and accessible from all.
pub alloc_map : Process → ℕ → ℕ → ℕ × Heap → Option (ℕ × Process)
alloc_map process slot size (ptr, heap) =
    if ptr == 0
    then some (0, record process { heap = heap })
    else some (
      heap_virt ptr,
      record process {
        heap = heap;
        mem =
            (map_to process.mem process.directory (heap_virt ptr) ptr
              (align_addr ((ptr + size) % 2 ^ 32)) 7).1;
        allocations = set process.allocations slot (heap_virt ptr, calculate_pages size);
      },
    )

-- `process_alloc_malloc` behind the search for a slot.
pub alloc_at : Process → ℕ → Option ℕ → Option (ℕ × Process)
unfolding alloc_map
alloc_at process size none = some (0, process)
alloc_at process size (some slot) = malloc process.heap size >>= alloc_map process slot size

-- `process_alloc_malloc`
unfoldable pub alloc_malloc : Process → ℕ → Option (ℕ × Process)
unfolding alloc_at
alloc_malloc process size = alloc_at process size (find_slot 0 process.allocations)

-- ERROR_P: the only error of `paging_get_physical_addr` is -EINVARG, which is -2.
abbrev pub pointer : Code ℕ → ℕ
pointer (ok addr) = addr
pointer (err _) = 2 ^ 32 - 2

-- The end of `process_alloc_free`, behind the heap's free.
abbrev pub unmap : Process → ℕ → ℕ → Heap → Option Process
unmap process virt slot heap =
    let pages = (get_or process.allocations slot (0, 0)).1 in
    some (record process {
      heap = heap;
      mem =
          (map_to process.mem process.directory virt virt ((virt + pages * paging_size) % 2 ^ 32)
            3).1;
      allocations = set process.allocations slot (0, pages);
    })

-- `process_alloc_free` behind the search for the slot.
pub free_at : Process → ℕ → Option ℕ → Option Process
free_at process virt none = some process
free_at process virt (some slot) =
    free process.heap (pointer (get_physical_addr process.mem process.directory virt))
    >>= unmap process virt slot

-- `process_alloc_free`
unfoldable pub alloc_free : Process → ℕ → Option Process
unfolding free_at
alloc_free process virt = free_at process virt (find_slot virt process.allocations)
