-- ===== src/Heap/Overrun.antt =====
-- The scan of `heap_get_start_block` accepts a run of free entries at the end of the table however
-- short it is: `heap_malloc` then writes past the table.
use asif_os.Prelude.{
  ℕ, ◌+◌, ◌*◌, ◌<◌, ◌≡◌, refl, ap, ◌∙◌, true, some, none, List, [], ◌∷◌, ◌++◌, arith, length,
  length-append, All, Option-cases, inl, inr,
}
use asif_os.Heap.{
  entry_taken, Heap, scan, scan_free, get_start_block, mark_block_taken, malloc_blocks, malloc,
  get_total_block, block_size,
}
use asif_os.Heap.Scan.{IsFree}
use asif_os.Heap.Alloc.{mark_block_taken-bounds, get_total_block_bounds}

abbrev pub IsTaken : ℕ → Type 0
IsTaken entry = entry_taken entry ≡ true

scan-taken :
    (blocks : ℕ) (before rest : List ℕ) (i : ℕ)
    → All IsTaken before
    → scan blocks (before ++ rest) i none 0 ≡ scan blocks rest (i + length before) none 0
unfolding scan
scan-taken blocks [] rest i t = ap (λ k. scan blocks rest k none 0) (omega arith)
scan-taken blocks (x ∷ before) rest i t =
    rw (t.0, scan-taken blocks before rest (i + 1) t.1)
      (ap (λ k. scan blocks rest k none 0) (omega arith))

scan-short :
    (blocks : ℕ) (run : List ℕ) (i bs bc : ℕ)
    → All IsFree run
    → bc + length run < blocks
    → scan blocks run i (some bs) bc ≡ some bs
unfolding scan scan_free
scan-short blocks [] i bs bc f lt = refl
scan-short blocks (x ∷ run) i bs bc f lt =
    let ih = scan-short blocks run (i + 1) bs (bc + 1) f.1 (omega arith) in ground (arith, f, ih)

scan-last :
    (blocks : ℕ) (run : List ℕ) (i : ℕ)
    → All IsFree run
    → 0 < length run
    → length run < blocks
    → scan blocks run i none 0 ≡ some i
unfolding scan scan_free
scan-last blocks [] i f pos lt = absurd (omega arith)
scan-last blocks (x ∷ run) i f pos lt =
    let ih = scan-short blocks run (i + 1) i 0 f.1 (omega arith) in ground (arith, f, ih)

get_start_block-last :
    (table before run : List ℕ) (blocks : ℕ)
    → table ≡ before ++ run
    → All IsTaken before
    → All IsFree run
    → 0 < length run
    → length run < blocks
    → get_start_block table blocks ≡ some (length before)
unfolding get_start_block
get_start_block-last table before run blocks e t f pos lt =
    rw (e, scan-taken blocks before run 0 t)
      (scan-last blocks run (0 + length before) f pos lt ∙ ap some (omega arith))

mark_block_taken-outside :
    (table : List ℕ) (start blocks : ℕ)
    → length table < start + blocks
    → mark_block_taken table start blocks ≡ none
mark_block_taken-outside table start blocks lt =
    elim (Option-cases (mark_block_taken table start blocks)) [
      | inl fault ↦ fault
      | inr (t, e) ↦ absurd (omega (arith, mark_block_taken-bounds table start blocks e))
    ]

malloc_blocks-outside :
    (h : Heap) (start blocks : ℕ)
    → get_start_block h.table blocks ≡ some start
    → length h.table < start + blocks
    → malloc_blocks h blocks ≡ none
unfolding malloc_blocks
malloc_blocks-outside h start blocks found lt =
    rw (found, malloc_blocks) (rw (mark_block_taken-outside h.table start blocks lt))

-- Where all the free entries of the table are a run at its end that is shorter than the request,
-- `heap_malloc` does not return its null pointer: it writes entries past the end of the table.
pub malloc-overruns :
    (h : Heap) (before run : List ℕ) (size : ℕ)
    → h.table ≡ before ++ run
    → All IsTaken before
    → All IsFree run
    → 0 < length run
    → length run * block_size < size
    → malloc h size ≡ none
unfolding malloc
malloc-overruns h before run size e t f pos lt =
    let total = get_total_block_bounds size in
    let found =
      get_start_block-last h.table before run (get_total_block size) e t f pos (omega arith) in
    let outside : malloc_blocks h (get_total_block size) ≡ none =
      malloc_blocks-outside h (length before) (get_total_block size) found
        (omega (arith, ap length e, length-append {0} before run)) in
    ground (arith, outside)
