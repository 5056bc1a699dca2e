-- ===== src/Heap/Free.antt =====
-- `heap_free` of what `heap_malloc` returned: an allocation of one or two blocks comes back whole,
-- a longer one keeps all its blocks but the first two.
use asif_os.Prelude.{
  ℕ, zero, suc, ◌+◌, ◌-◌, ◌*◌, ◌/◌, ◌%◌, ◌^◌, ◌≤◌, ◌<◌, ◌≡◌, refl, sym, ap, ◌∙◌, subst, ◌⊎◌, inl,
  inr, true, false, some, List, [], ◌∷◌, ◌++◌, arith, length, length-append, replicate, Bool-cases,
  All, All-append_left, All-append_right, get_or, get_or-middle, ◌==◌, some_inj,
}
use asif_os.Heap.{
  block_size, entry_free_byte, entry_taken, Heap, malloc, get_total_block, calc_address_block, free,
}
use asif_os.Heap.Scan.{IsFree}
use asif_os.Heap.Layout.{layout, freed, mark_block_free-layout}
use asif_os.Heap.Alloc.{
  Allocates, Allocates-disjoint, middle-All, malloc_blocks-Allocates, get_total_block_bounds,
}
use asif_os.Heap.Valid.{IsValid, IsClean, malloc-IsValid, get_total_block-pos}

-- `heap_calc_address_block` undoes `heap_calc_block_address` inside a valid heap.
calc_address_block-address :
    (h : Heap) (b : ℕ)
    → h.start_addr + b * block_size < 2 ^ 32
    → b * block_size < 2 ^ 31
    → calc_address_block h ((h.start_addr + b * block_size) % 2 ^ 32) ≡ some b
unfolding calc_address_block
calc_address_block-address h b fits small = ground arith

module _ {b : ℕ} {h : Heap} {addr : ℕ} {h' : Heap} (m : Allocates b h addr h') (v : IsValid h)
    (lt : 0 < b) where
  starts_inside : length m.before + b ≤ length h.table
  starts_inside = omega (
    arith,
    ap length m.parts,
    length-append {0} m.before (m.run ++ m.after),
    length-append {0} m.run m.after,
    m.count,
  )

  address_exact : addr ≡ h.start_addr + length m.before * block_size
  address_exact = omega (arith, m.address, starts_inside, v.fits)

  -- The heap after the allocation is freed.
  pub free-freed : free h' addr ≡ some (record h { table = m.before ++ (freed b ++ m.after) })
  unfolding free
  free-freed =
      rw (m.result, m.address)
        (rw
          (calc_address_block-address (record h { table = m.before ++ (layout b ++ m.after) })
            (length m.before) (omega (arith, starts_inside, v.fits))
            (omega (arith, starts_inside, v.small)))
          (rw (mark_block_free-layout m.before b m.after lt)))

  -- The entries of the run were free bytes.
  clean_run : All (λ e. e ≡ entry_free_byte) m.run
  clean_run = go m.run m.free cleans
    where
      cleans : All IsClean m.run
      cleans = All-append_left IsClean m.run m.after (
          All-append_right IsClean m.before (m.run ++ m.after)
            (subst (All IsClean) m.parts v.clean))

      go : (xs : List ℕ) → All IsFree xs → All IsClean xs → All (λ e. e ≡ entry_free_byte) xs
      go [] f c = tt
      go (x ∷ xs) f c = (c.0 f.0, go xs f.1 c.1)

free_bytes :
    (xs : List ℕ) → All (λ e. e ≡ entry_free_byte) xs → xs ≡ replicate (length xs) entry_free_byte
free_bytes [] h = refl
free_bytes (x ∷ xs) h = rw (h.0, ← free_bytes xs h.1)

freed_small : (b : ℕ) → b ≤ 2 → freed b ≡ replicate b entry_free_byte
freed_small zero h = refl
freed_small (suc zero) h = refl
freed_small (suc (suc zero)) h = refl
freed_small (suc (suc (suc b))) h = absurd (omega arith)

free_restores :
    {b : ℕ} {h : Heap} {addr : ℕ} {h' : Heap}
    → Allocates b h addr h'
    → IsValid h
    → 0 < b
    → b ≤ 2
    → free h' addr ≡ some h
free_restores {b} {h} m v lt small =
    free-freed m v lt ∙ ap (λ t. some (record h { table = t })) (same ∙ sym m.parts)
  where
    same : m.before ++ (freed b ++ m.after) ≡ m.before ++ (m.run ++ m.after)
    same =
        ap (λ xs. m.before ++ (xs ++ m.after))
          (freed_small b small
            ∙ sym (
                subst (λ n. m.run ≡ replicate n entry_free_byte) m.count
                  (free_bytes m.run (clean_run m v lt))))

malloc-cases :
    (h : Heap) (size : ℕ) {addr : ℕ} {h' : Heap}
    → malloc h size ≡ some (addr, h')
    → 0 < addr
    → (0 < get_total_block size) × Allocates (get_total_block size) h addr h'
unfolding malloc
malloc-cases h size e pos = elim (Bool-cases (size == 0)) [
  | inl nothing ↦ absurd (omega (arith, ap (λ p. p.0) (some_inj (rw nothing at e))))
  | inr some_size ↦
      let lt = get_total_block-pos size (ground arith) in
      elim (malloc_blocks-Allocates h (get_total_block size) lt (rw some_size at e)) [
        | inl (_, zero_addr, _) ↦ absurd (omega arith)
        | inr m ↦ (lt, m)
      ]
]

-- Freeing an allocation of at most two blocks gives back the heap as it was before the call.
pub free-malloc :
    (h : Heap) (size : ℕ) {addr : ℕ} {h' : Heap}
    → IsValid h
    → malloc h size ≡ some (addr, h')
    → 0 < addr
    → size ≤ 2 * block_size
    → free h' addr ≡ some h
free-malloc h size v e pos small =
    let (lt, m) = malloc-cases h size e pos in
    free_restores m v lt (omega (arith, get_total_block_bounds size))

freed_third :
    (b : ℕ) (before after : List ℕ)
    → 2 < b
    → entry_taken (get_or (before ++ (freed b ++ after)) (length before + 2) 0) ≡ true
unfolding entry_taken
freed_third zero before after long = absurd (omega arith)
freed_third (suc zero) before after long = absurd (omega arith)
freed_third (suc (suc zero)) before after long = absurd (omega arith)
freed_third (suc (suc (suc zero))) before after long =
    ap entry_taken (get_or-middle before (freed 3) after 2 (length before + 2) 0 refl (omega arith))
freed_third (suc (suc (suc (suc n)))) before after long = ap entry_taken (
    get_or-middle before (freed (suc (suc (suc (suc n))))) after 2 (length before + 2) 0 refl
      (omega arith))

-- Freeing a longer allocation succeeds, but its third block, which was free before the
-- allocation, stays taken.
pub free-malloc_leaks :
    (h : Heap) (size : ℕ) {addr : ℕ} {h' : Heap}
    → IsValid h
    → malloc h size ≡ some (addr, h')
    → 0 < addr
    → 2 * block_size < size
    → (g : Heap) × (free h' addr ≡ some g)
      × (entry_taken (get_or h.table ((addr - h.start_addr) / block_size + 2) 0) ≡ false)
      × (entry_taken (get_or g.table ((addr - h.start_addr) / block_size + 2) 0) ≡ true)
free-malloc_leaks h size {addr} v e pos large =
    let (lt, m) = malloc-cases h size e pos in
    let index : (addr - h.start_addr) / block_size + 2 ≡ length m.before + 2 =
      omega (arith, address_exact m v lt) in
    let long : 2 < get_total_block size = omega (arith, get_total_block_bounds size) in
    (
      record h { table = m.before ++ (freed (get_total_block size) ++ m.after) },
      free-freed m v lt,
      rw index (
          middle-All IsFree h.table m.before m.run m.after (length m.before + 2) m.parts m.free
            (omega arith) (omega (arith, m.count))),
      rw index (freed_third (get_total_block size) m.before m.after long),
    )

-- Two allocations made one after the other return memory that does not overlap.
pub malloc-disjoint :
    (h : Heap) (size size2 : ℕ) {addr addr2 : ℕ} {h' h2 : Heap}
    → IsValid h
    → malloc h size ≡ some (addr, h')
    → malloc h' size2 ≡ some (addr2, h2)
    → 0 < addr
    → 0 < addr2
    → (addr + size ≤ addr2) ⊎ (addr2 + size2 ≤ addr)
malloc-disjoint h size size2 {addr} {addr2} {h'} v e e2 pos pos2 =
    let (lt, m) = malloc-cases h size e pos in
    let (lt2, m2) = malloc-cases h' size2 e2 pos2 in
    let at = address_exact m v lt in
    let at2 = address_exact m2 (malloc-IsValid h size v e) lt2 in
    let same = ap (λ x. x.start_addr) m.result in
    let long = get_total_block_bounds size in
    let long2 = get_total_block_bounds size2 in
    elim (Allocates-disjoint m m2 lt lt2) [
      | inl first ↦ inl (omega arith)
      | inr second ↦ inr (omega arith)
    ]

-- An allocation starts at a block of a valid heap and does not lead out of it.
pub malloc-bounds :
    (h : Heap) (size : ℕ) {addr : ℕ} {h' : Heap}
    → IsValid h
    → malloc h size ≡ some (addr, h')
    → 0 < addr
    → (addr % block_size ≡ 0)
      × (h.start_addr ≤ addr)
      × (addr + get_total_block size * block_size ≤ h.start_addr + length h.table * block_size)
malloc-bounds h size {addr} v e pos =
    let (lt, m) = malloc-cases h size e pos in
    let at = address_exact m v lt in
    let whole : length h.table ≡ length m.before + (length m.run + length m.after) =
      ap length m.parts
      ∙ length-append m.before (m.run ++ m.after)
      ∙ ap (λ (n : ℕ). length m.before + n) (length-append m.run m.after) in
    (omega (arith, v.aligned), omega arith, omega (arith, m.count))
