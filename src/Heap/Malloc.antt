-- ===== src/Heap/Malloc.antt =====
-- `heap_malloc` of src/kernel/heap/heap.c in all its cases, over a valid heap.
use asif_os.Prelude.{
  ℕ, ◌+◌, ◌*◌, ◌%◌, ◌^◌, ◌≤◌, ◌<◌, ◌≡◌, ◌≢◌, refl, sym, ap, ◌∙◌, subst, ◌⊎◌, inl, inr, arith,
  Option, none, some, List, ◌++◌, append_assoc, length, split_at, dec_le, Option-cases, pick_else,
  ◌>>=◌,
}
use asif_os.Heap.{
  Heap, block_size, malloc, malloc_blocks, get_total_block, get_start_block, mark_block_taken,
  calc_block_address,
}
use asif_os.Heap.Scan.{Found, get_start_block-Found}
use asif_os.Heap.Layout.{layout}
use asif_os.Heap.Alloc.{Allocates, Found-long, mark_parts, malloc_at, mark_block_taken-bounds}
use asif_os.Heap.Valid.{IsValid, Allocates-IsValid, get_total_block-pos}

-- What `heap_malloc` makes of so many blocks, by the block that its scan starts them at: no memory and
-- the heap as it was; a fault, when they lead out of the table; or an allocation of exactly these blocks.
abbrev pub Outcome : Heap → (blocks : ℕ) → Option ℕ → Option (ℕ × Heap) → Type 0
Outcome h blocks none run = run ≡ some (0, h)
Outcome h blocks (some start) run =
    ((length h.table < start + blocks) × (run ≡ none))
    ⊎ ((start + blocks ≤ length h.table)
        × ((h' : Heap) × (run ≡ some (h.start_addr + start * block_size, h'))
            × Allocates blocks h (h.start_addr + start * block_size) h'
            × IsValid h'))

-- Marking the blocks that the scan has found succeeds inside of the table.
marking_runs :
    (h : Heap) (blocks start : ℕ)
    → 0 < blocks
    → Found blocks h.table start
    → start + blocks ≤ length h.table
    → (table : List ℕ) × (mark_block_taken h.table start blocks ≡ some table)
marking_runs h blocks start lt f le =
    let (run, rest, er, el) = split_at blocks f.run (Found-long blocks start h.table f le) in
    let parts : h.table ≡ f.before ++ (run ++ (rest ++ f.after)) =
      f.parts
      ∙ ap (λ r. f.before ++ (r ++ f.after)) er
      ∙ ap (◌++◌ f.before) (append_assoc run rest f.after) in
    (
      f.before ++ (layout blocks ++ (rest ++ f.after)),
      mark_parts h.table f.before run (rest ++ f.after) start blocks parts f.starts el lt,
    )

-- And behind its end it does not.
leaves_table :
    (table : List ℕ) (start blocks : ℕ)
    → length table < start + blocks
    → mark_block_taken table start blocks ≡ none
leaves_table table start blocks lt = elim (Option-cases (mark_block_taken table start blocks)) [
  | inl no_table ↦ no_table
  | inr (t, m) ↦ absurd (omega (arith, mark_block_taken-bounds table start blocks m))
]

Found-Outcome :
    (h : Heap) (blocks start : ℕ)
    → IsValid h
    → 0 < blocks
    → Found blocks h.table start
    → Outcome h blocks (some start) (
        mark_block_taken h.table start blocks >>= λ table.
        some (calc_block_address h start, record h { table = table }))
unfolding calc_block_address
Found-Outcome h blocks start v lt f = elim (dec_le (start + blocks) (length h.table)) [
  | no over ↦ inl (omega arith, rw (leaves_table h.table start blocks (omega arith)) refl)
  | yes le ↦
      let (table, marked) = marking_runs h blocks start lt f le in
      let address : (h.start_addr + start * block_size) % 2 ^ 32
          ≡ h.start_addr + start * block_size =
        omega (arith, v.fits) in
      let m =
        malloc_at h blocks start {addr = h.start_addr + start * block_size}
          {h' = record h { table = table }} table lt f marked (sym address) refl in
      inr (le, (record h { table = table }, rw (marked, address) refl, m, Allocates-IsValid m v))
]

malloc_blocks-Outcome :
    (h : Heap) (blocks : ℕ)
    → IsValid h
    → 0 < blocks
    → Outcome h blocks (get_start_block h.table blocks) (malloc_blocks h blocks)
unfolding malloc_blocks
malloc_blocks-Outcome h blocks v lt = elim (Option-cases (get_start_block h.table blocks)) [
  | inl no_block ↦ rw (no_block, malloc_blocks) refl
  | inr (start, found) ↦
      rw (found, malloc_blocks)
        (Found-Outcome h blocks start v lt (get_start_block-Found h.table blocks lt found))
]

-- On a valid heap heap_malloc of a size that is not 0 does what its scan for the size in whole blocks
-- says: without a start it answers null and the heap is as it was; with a start from which the blocks
-- lead out of the table it writes out of the table; and otherwise it answers the address of the start,
-- exactly that many entries from it on, all of them free before, become those of one allocation, every
-- other entry is kept, and the heap is valid.
pub malloc-Outcome :
    (h : Heap) (size : ℕ)
    → IsValid h
    → size ≢ 0
    → Outcome h
        (get_total_block size)
        (get_start_block h.table (get_total_block size))
        (malloc h size)
unfolding malloc
malloc-Outcome h size v some_size =
    subst (Outcome h (get_total_block size) (get_start_block h.table (get_total_block size)))
      (sym (pick_else some_size (some (0, h)) (malloc_blocks h (get_total_block size))))
      (malloc_blocks-Outcome h (get_total_block size) v (get_total_block-pos size some_size))
