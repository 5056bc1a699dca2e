-- ===== src/Heap/Kheap.antt =====
-- src/kernel/heap/kheap.c: the one heap of the kernel, at its fixed addresses. `kheap_malloc` and
-- `kheap_free` are `Heap.malloc` and `Heap.free` of that heap.
use asif_os.Prelude.{
  ℕ, ◌+◌, ◌/◌, ◌≡◌, refl, Option, some, List, arith, length, replicate, ◌>>=◌, zero, suc, not, ◌||◌,
  false, All, length-replicate,
}
use asif_os.Kern.Mem.{memsetk-replicate}
use asif_os.Kern.Status.{all_ok}
use asif_os.Heap.{Heap, block_size, entry_free_byte, is_aligned, table_fits, create}
use asif_os.Heap.Valid.{IsValid, create-IsValid}

-- NUTTLE_KERNEL_HEAP_START
abbrev pub heap_start : ℕ
heap_start = 0x1000000

-- NUTTLE_HEAP_SIZE_IN_BYTES
abbrev pub heap_bytes : ℕ
heap_bytes = 104857600

-- `kheap_init`, over the bytes at NUTTLE_HEAP_TABLE_ADDR; a failure is only printed.
unfoldable pub kheap_init : Heap → List ℕ → Option Heap
kheap_init heap entries =
    create heap heap_start (heap_start + heap_bytes) entries (heap_bytes / block_size) >>= λ r.
    some r.1

create_accepted :
    (heap : Heap) (start end : ℕ) (entries : List ℕ) (n : ℕ)
    → length entries ≡ n
    → (not (is_aligned start) || not (is_aligned end) || not (table_fits start end n)) ≡ false
    → (h : Heap) × (create heap start end entries n ≡ some (all_ok, h))
      × (length h.table ≡ n)
      × All (λ e. e ≡ entry_free_byte) h.table
unfolding create
create_accepted heap start end entries n e good = (
  record { table = replicate n entry_free_byte; size = n; start_addr = start },
  rw (good, memsetk-replicate entries entry_free_byte n e),
  length-replicate n entry_free_byte,
  all_free n,
)
  where
    all_free : (k : ℕ) → All (λ e. e ≡ entry_free_byte) (replicate k entry_free_byte)
    all_free zero = tt
    all_free (suc k) = (refl, all_free k)

constants_accepted :
    (not (is_aligned heap_start)
      || not (is_aligned (heap_start + heap_bytes))
      || not (table_fits heap_start (heap_start + heap_bytes) (heap_bytes / block_size)))
    ≡ false
unfolding is_aligned table_fits
constants_accepted = refl

-- `kheap_init` succeeds on a table of 25600 bytes: the kernel's heap is valid, has 25600 blocks,
-- and all of them are free.
pub kheap_init-IsValid :
    (heap : Heap) (entries : List ℕ)
    → length entries ≡ 25600
    → (h : Heap) × (kheap_init heap entries ≡ some h)
      × IsValid h
      × (length h.table ≡ 25600)
      × All (λ e. e ≡ entry_free_byte) h.table
unfolding kheap_init
kheap_init-IsValid heap entries e =
    let (h, made, l, free) =
      create_accepted heap heap_start (heap_start + heap_bytes) entries 25600 e
        constants_accepted in
    (
      h,
      rw made,
      create-IsValid heap heap_start (heap_start + heap_bytes) entries 25600 e (omega arith)
          (omega arith) (omega arith) made,
      l,
      free,
    )
