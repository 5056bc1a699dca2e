-- ===== src/Heap/Alloc.antt =====
-- `heap_malloc` and `heap_free`: what an allocation changes, and what freeing it gives back.
use asif_os.Prelude.{
  ℕ, zero, suc, ◌+◌, ◌-◌, ◌*◌, ◌%◌, ◌^◌, ◌≤◌, ◌<◌, ◌≡◌, refl, sym, ap, ◌∙◌, subst, ◌⊎◌, inl, inr,
  none, some, true, false, List, [], ◌∷◌, ◌++◌, append_assoc, arith, >>=-eq-some, some_inj, store,
  length, length-append, length-replicate, replicate, Option-cases, All, All-append,
  All-append_left, get_or, All-get_or, get_or-middle, split_at, max, dec_lt,
}
use asif_os.Heap.{
  block_size, entry_taken, Heap, mark_regular, mark_block_taken, get_start_block,
  calc_block_address, malloc_blocks, get_total_block,
}
use asif_os.Heap.Scan.{IsFree, Found, get_start_block-Found}
use asif_os.Heap.Layout.{layout, mark_block_taken-layout}

-- `get_total_block` rounds a size up to whole blocks.
pub get_total_block_bounds :
    (size : ℕ)
    → (size ≤ get_total_block size * block_size)
      × (get_total_block size * block_size < size + block_size)
unfolding get_total_block
get_total_block_bounds size = ground arith

store-bounds :
    (xs : List ℕ) (i v : ℕ) {ys : List ℕ}
    → store xs i v ≡ some ys
    → (i < length xs) × (length ys ≡ length xs)
unfolding store
store-bounds [] i v h = cc
store-bounds (x ∷ xs) zero v h = ground arith
store-bounds (x ∷ xs) (suc i) v h =
    let (zs, e, e') = >>=-eq-some (store xs i v) _ h in
    let ih = store-bounds xs i v e in ground arith

mark_regular-length :
    (n : ℕ) (xs : List ℕ) (i : ℕ) {ys : List ℕ}
    → mark_regular xs i n ≡ some ys
    → length ys ≡ length xs
unfolding mark_regular
mark_regular-length zero xs i h = ground arith
mark_regular-length (suc n) xs i h =
    let (zs, e, e') = >>=-eq-some (store xs i 0x8f) _ h in
    mark_regular-length n zs (i + 1) e' ∙ (store-bounds xs i _ e).1

-- A marking that does not fault stays inside the table.
pub mark_block_taken-bounds :
    (table : List ℕ) (start blocks : ℕ) {t : List ℕ}
    → mark_block_taken table start blocks ≡ some t
    → start + blocks ≤ length table
unfolding mark_block_taken
mark_block_taken-bounds table start zero h = cc
mark_block_taken-bounds table start (suc zero) h = omega (arith, store-bounds table start 0x4f h)
mark_block_taken-bounds table start (suc (suc n)) h =
    let (t1, e1, h1) = >>=-eq-some (store table start 0xcf) _ h in
    let (t2, e2, h2) = >>=-eq-some (mark_regular t1 (start + 1) n) _ h1 in
    omega (
      arith,
      store-bounds table start 0xcf e1,
      mark_regular-length n t1 (start + 1) e2,
      store-bounds t2 (start + 1 + n) 0x0f h2,
    )

-- A successful allocation of `blocks` blocks: a run of that many free entries, inside the table,
-- becomes the layout of one allocation, all else stays, and the address is that of its first block.
pub record Allocates (blocks : ℕ) (h : Heap) (addr : ℕ) (h' : Heap) : Type 0 where
  pub before : List ℕ
  pub run : List ℕ
  pub after : List ℕ
  pub parts : h.table ≡ before ++ (run ++ after)
  pub free : All IsFree run
  pub count : length run ≡ blocks
  pub result : h' ≡ record h { table = before ++ (layout blocks ++ after) }
  pub address : addr ≡ (h.start_addr + length before * block_size) % 2 ^ 32

-- A run that the scan accepts and that does not lead out of the table is long enough.
pub Found-long :
    (blocks s : ℕ) (table : List ℕ) (f : Found blocks table s)
    → s + blocks ≤ length table
    → blocks ≤ length f.run
Found-long blocks s table f inside = go f.fits
  where
    go :
        (length f.run ≡ blocks + 1)
          ⊎ ((f.after ≡ []) × (0 < length f.run) × (length f.run ≤ blocks))
        → blocks ≤ length f.run
    go (inl e) = omega arith
    go (inr (e, _, _)) = omega (
      arith,
      ap length f.parts,
      ap length e,
      length-append {0} f.before (f.run ++ f.after),
      length-append {0} f.run f.after,
    )

pub mark_parts :
    (table before run after : List ℕ) (s blocks : ℕ)
    → table ≡ before ++ (run ++ after)
    → s ≡ length before
    → length run ≡ blocks
    → 0 < blocks
    → mark_block_taken table s blocks ≡ some (before ++ (layout blocks ++ after))
mark_parts table before run after s blocks e1 e2 e3 lt =
    rw (e1, e2, ← e3) (mark_block_taken-layout before run after (omega arith))

pub malloc_at :
    (h : Heap) (blocks s : ℕ) {addr : ℕ} {h' : Heap} (t : List ℕ)
    → 0 < blocks
    → Found blocks h.table s
    → mark_block_taken h.table s blocks ≡ some t
    → addr ≡ calc_block_address h s
    → h' ≡ record h { table = t }
    → Allocates blocks h addr h'
unfolding calc_block_address
malloc_at h blocks s {addr} {h'} t lt f m ea eh =
    let long = Found-long blocks s h.table f (mark_block_taken-bounds h.table s blocks m) in
    let (run, rest, er, el) = split_at blocks f.run long in
    let parts : h.table ≡ f.before ++ (run ++ (rest ++ f.after)) =
      f.parts
      ∙ ap (λ r. f.before ++ (r ++ f.after)) er
      ∙ ap (◌++◌ f.before) (append_assoc run rest f.after) in
    record {
      before = f.before;
      run = run;
      after = rest ++ f.after;
      parts = parts;
      free = All-append_left IsFree run rest (subst (All IsFree) er f.free);
      count = el;
      result =
          eh
          ∙ ap (λ x. record h { table = x })
              (some_inj (
                sym m
                ∙ mark_parts h.table f.before run (rest ++ f.after) s blocks parts f.starts el lt));
      address = ea ∙ ap (λ k. (h.start_addr + k * block_size) % 2 ^ 32) f.starts;
    }

-- `heap_malloc_blocks` either finds no run of free entries and changes nothing, or allocates.
pub malloc_blocks-Allocates :
    (h : Heap) (blocks : ℕ) {addr : ℕ} {h' : Heap}
    → 0 < blocks
    → malloc_blocks h blocks ≡ some (addr, h')
    → ((get_start_block h.table blocks ≡ none) × (addr ≡ 0) × (h' ≡ h)) ⊎ Allocates blocks h addr h'
unfolding malloc_blocks
malloc_blocks-Allocates h blocks {addr} {h'} lt e =
    elim (Option-cases (get_start_block h.table blocks)) [
      | inl no_block ↦ inl (no_block, ground (arith, no_block), ground (arith, no_block))
      | inr (s, found) ↦
          let (t, m, r) =
            >>=-eq-some (mark_block_taken h.table s blocks) _ (rw (found, malloc_blocks) at e) in
          inr (
            malloc_at h blocks s t lt (get_start_block-Found h.table blocks lt found) m
              (ground arith) (ground arith))
    ]

pub layout-IsTaken : (n : ℕ) → All (λ e. entry_taken e ≡ true) (layout n)
unfolding entry_taken
layout-IsTaken zero = tt
layout-IsTaken (suc zero) = (refl, tt)
layout-IsTaken (suc (suc n)) = (
  refl,
  All-append (λ e. entry_taken e ≡ true) (replicate n 0x8f) (0x0f ∷ []) (nexts n) (refl, tt),
)
  where
    nexts : (k : ℕ) → All (λ e. entry_taken e ≡ true) (replicate k 0x8f)
    nexts zero = tt
    nexts (suc k) = (refl, nexts k)

pub length-layout : (n : ℕ) → length (layout n) ≡ n
length-layout zero = refl
length-layout (suc zero) = refl
length-layout (suc (suc n)) =
    omega
      (arith, length-append {A = ℕ} (replicate n 0x8f) (0x0f ∷ []), length-replicate {A = ℕ} n 0x8f)

-- What holds of the middle part of a list, at an index into the whole.
pub middle-All :
    (P : ℕ → Type 0) (table before xs after : List ℕ) (k : ℕ)
    → table ≡ before ++ (xs ++ after)
    → All P xs
    → length before ≤ k
    → k < length before + length xs
    → P (get_or table k 0)
middle-All P table before xs after k e p lo hi = rw e (
    rw (get_or-middle before xs after (k - length before) k 0 (omega arith) (omega arith))
      (All-get_or P xs (k - length before) 0 p (omega arith)))

-- Two allocations made one after the other own disjoint ranges of blocks.
pub Allocates-disjoint :
    {b b2 : ℕ} {h : Heap} {addr : ℕ} {h1 : Heap} {addr2 : ℕ} {h2 : Heap} (m : Allocates b h addr h1)
    (m2 : Allocates b2 h1 addr2 h2)
    → 0 < b
    → 0 < b2
    → (length m.before + b ≤ length m2.before) ⊎ (length m2.before + b2 ≤ length m.before)
Allocates-disjoint {b} {b2} {h} {addr} {h1} m m2 lt lt2 =
    elim (dec_lt (length m2.before) (length m.before + b)) [
      | no past ↦ inl (omega arith)
      | yes before_end ↦ elim (dec_lt (length m.before) (length m2.before + b2)) [
        | no past ↦ inr (omega arith)
        | yes overlap ↦
            let k : ℕ = max (length m.before) (length m2.before) in
            cc (clash k (omega arith) (omega arith) (omega arith) (omega arith))
      ]
    ]
  where
    taken :
        (k : ℕ)
        → length m.before ≤ k
        → k < length m.before + b
        → entry_taken (get_or h1.table k 0) ≡ true
    taken k lo hi =
        middle-All (λ e. entry_taken e ≡ true) h1.table m.before (layout b) m.after k
          (ap (λ x. x.table) m.result) (layout-IsTaken b) lo (omega (arith, length-layout b))

    clash :
        (k : ℕ)
        → length m.before ≤ k
        → k < length m.before + b
        → length m2.before ≤ k
        → k < length m2.before + b2
        → true ≡ false
    clash k lo hi lo2 hi2 =
        sym (taken k lo hi)
        ∙ middle-All IsFree h1.table m2.before m2.run m2.after k m2.parts m2.free lo2
            (omega (arith, m2.count))
