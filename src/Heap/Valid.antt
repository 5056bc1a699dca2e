-- ===== src/Heap/Valid.antt =====
-- The invariant of the heap: its table lies in the address space, and every entry that does not
-- read as taken is the byte that `heap_create` and `heap_free` write.
use asif_os.Prelude.{
  ℕ, zero, suc, ◌+◌, ◌*◌, ◌^◌, ◌≤◌, ◌<◌, ◌%◌, ◌≡◌, ◌≢◌, refl, sym, ap, ◌∙◌, inl, inr, true, false,
  some, List, [], ◌∷◌, ◌++◌, arith, >>=-eq-some, some_inj, length, length-append, length-replicate,
  replicate, Bool-cases, All, All-append, All-append_left, All-append_right, subst, ◌==◌, ◌-◌, ◌/◌,
  not, ◌||◌,
}
use asif_os.Kern.Mem.{memsetk-replicate}
use asif_os.Kern.Status.{all_ok}
use asif_os.Heap.{
  block_size, entry_free_byte, entry_taken, entry_last, Heap, is_aligned, table_fits, create,
  malloc, get_total_block, free_run, mark_block_free, calc_address_block, free,
}
use asif_os.Heap.Scan.{IsFree}
use asif_os.Heap.Layout.{layout}
use asif_os.Heap.Alloc.{Allocates, malloc_blocks-Allocates, layout-IsTaken, length-layout}

abbrev pub IsClean : ℕ → Type 0
IsClean entry = IsFree entry → entry ≡ entry_free_byte

pub record IsValid (h : Heap) : Type 0 where
  pub covers : length h.table ≡ h.size
  pub clean : All IsClean h.table
  pub fits : h.start_addr + length h.table * block_size ≤ 2 ^ 32
  pub small : length h.table * block_size ≤ 2 ^ 31
  pub aligned : h.start_addr % block_size ≡ 0

taken-IsClean : (xs : List ℕ) → All (λ e. entry_taken e ≡ true) xs → All IsClean xs
taken-IsClean [] h = tt
taken-IsClean (x ∷ xs) h = ((λ free. cc), taken-IsClean xs h.1)

-- Replacing free entries by a layout keeps a table clean.
Allocates-IsClean :
    {blocks addr : ℕ} {h h' : Heap}
    → Allocates blocks h addr h'
    → All IsClean h.table
    → All IsClean h'.table
Allocates-IsClean {blocks} {h} m c =
    let c' = subst (All IsClean) m.parts c in
    subst (All IsClean) (sym (ap (λ x. x.table) m.result)) (
      All-append IsClean m.before (layout blocks ++ m.after)
        (All-append_left IsClean m.before (m.run ++ m.after) c')
        (All-append IsClean (layout blocks) m.after
          (taken-IsClean (layout blocks) (layout-IsTaken blocks))
          (All-append_right IsClean m.run m.after
            (All-append_right IsClean m.before (m.run ++ m.after) c'))))

Allocates-length :
    {blocks addr : ℕ} {h h' : Heap} → Allocates blocks h addr h' → length h'.table ≡ length h.table
Allocates-length {blocks} m = omega (
  arith,
  ap length m.parts,
  ap (λ x. length x.table) m.result,
  length-append {0} m.before (m.run ++ m.after),
  length-append {0} m.run m.after,
  length-append {0} m.before (layout blocks ++ m.after),
  length-append {0} (layout blocks) m.after,
  length-layout blocks,
  m.count,
)

pub Allocates-IsValid :
    {blocks addr : ℕ} {h h' : Heap} → Allocates blocks h addr h' → IsValid h → IsValid h'
Allocates-IsValid m v = record {
  covers = Allocates-length m ∙ v.covers ∙ sym (ap (λ x. x.size) m.result);
  clean = Allocates-IsClean m v.clean;
  fits = omega (arith, Allocates-length m, ap (λ x. x.start_addr) m.result);
  small = omega (arith, Allocates-length m);
  aligned = ap (λ x. x.start_addr % block_size) m.result ∙ v.aligned;
}

pub get_total_block-pos : (size : ℕ) → size ≢ 0 → 0 < get_total_block size
unfolding get_total_block
get_total_block-pos size h = ground arith

-- A `heap_malloc` that stays in the table keeps the heap valid.
pub malloc-IsValid :
    (h : Heap) (size : ℕ) {addr : ℕ} {h' : Heap}
    → IsValid h
    → malloc h size ≡ some (addr, h')
    → IsValid h'
unfolding malloc
malloc-IsValid h size v e = elim (Bool-cases (size == 0)) [
  | inl nothing ↦ subst IsValid (ap (λ p. p.1) (some_inj (rw nothing at e))) v
  | inr some_size ↦
      elim (malloc_blocks-Allocates h (get_total_block size)
        (get_total_block-pos size (ground arith)) (rw some_size at e)) [
          | inl (_, _, same) ↦ subst IsValid (sym same) v
          | inr m ↦ Allocates-IsValid m v
        ]
]

free_run-IsClean :
    (xs : List ℕ) {ys : List ℕ}
    → free_run xs ≡ some ys
    → All IsClean xs
    → All IsClean ys × (length ys ≡ length xs)
unfolding free_run
free_run-IsClean [] e c = cc
free_run-IsClean (x ∷ xs) {ys} e c = elim (Bool-cases (entry_taken x)) [
  | inr open_entry ↦ keep (x ∷ xs) c refl (some_inj (rw open_entry at e))
  | inl taken ↦ elim (Bool-cases (entry_last x)) [
    | inl last ↦
        keep (entry_free_byte ∷ xs) ((λ _. refl), c.1) refl (some_inj (rw (taken, last) at e))
    | inr more ↦
        let (zs, m, r) = >>=-eq-some (free_run xs) _ (rw (taken, more) at e) in
        let (c', l) = free_run-IsClean xs m c.1 in
        keep (entry_free_byte ∷ zs) ((λ _. refl), c') (ap suc l) (some_inj r)
  ]
]
  where
    keep :
        (zs : List ℕ)
        → All IsClean zs
        → length zs ≡ suc (length xs)
        → zs ≡ ys
        → All IsClean ys × (length ys ≡ suc (length xs))
    keep zs c l e = subst (λ t. All IsClean t × (length t ≡ suc (length xs))) e (c, l)

mark_block_free-IsClean :
    (xs : List ℕ) (block : ℕ) {ys : List ℕ}
    → mark_block_free xs block ≡ some ys
    → All IsClean xs
    → All IsClean ys × (length ys ≡ length xs)
unfolding mark_block_free
mark_block_free-IsClean xs zero e c = free_run-IsClean xs e c
mark_block_free-IsClean [] (suc block) e c = cc
mark_block_free-IsClean (x ∷ xs) (suc block) e c =
    let (zs, m, r) = >>=-eq-some (mark_block_free xs block) _ e in
    let (c', l) = mark_block_free-IsClean xs block m c.1 in
    subst (λ t. All IsClean t × (length t ≡ suc (length xs))) (some_inj r) ((c.0, c'), ap suc l)

-- A `heap_free` that stays in the table keeps the heap valid.
pub free-IsValid : (h : Heap) (ptr : ℕ) {h' : Heap} → IsValid h → free h ptr ≡ some h' → IsValid h'
unfolding free
free-IsValid h ptr v e =
    let (block, _, e1) = >>=-eq-some (calc_address_block h ptr) _ e in
    let (t, m, e2) = >>=-eq-some (mark_block_free h.table block) _ e1 in
    let (c, l) = mark_block_free-IsClean h.table block m v.clean in
    subst IsValid (some_inj e2) (record {
      covers = l ∙ v.covers;
      clean = c;
      fits = omega arith;
      small = omega arith;
      aligned = v.aligned;
    })

create_accepts :
    (start end size : ℕ)
    → (not (is_aligned start) || not (is_aligned end) || not (table_fits start end size)) ≡ false
    → (start % block_size ≡ 0) × ((end + 2 ^ 32 - start) % 2 ^ 32 / block_size ≡ size)
unfolding is_aligned table_fits
create_accepts start end size h = ground arith

-- A heap that `heap_create` accepts is valid, if its region ends in the 32-bit address space and
-- does not pass 2 GB.
pub create-IsValid :
    (h : Heap) (start end : ℕ) (entries : List ℕ) (size : ℕ) {h' : Heap}
    → length entries ≡ size
    → start ≤ end
    → end < 2 ^ 32
    → end - start ≤ 2 ^ 31
    → create h start end entries size ≡ some (all_ok, h')
    → IsValid h'
unfolding create
create-IsValid h start end entries size {h'} le lo hi room e =
    elim (Bool-cases
      (not (is_aligned start) || not (is_aligned end) || not (table_fits start end size))) [
        | inl bad ↦ cc (rw bad at e)
        | inr good ↦
            let accepted = create_accepts start end size good in
            let made = rw (good, memsetk-replicate entries entry_free_byte size le) at e in
            subst IsValid (ap (λ p. p.1) (some_inj made)) (record {
              covers = length-replicate size 1;
              clean = clean_table size;
              fits = omega (arith, accepted.1, length-replicate {A = ℕ} size 1);
              small = omega (arith, accepted.1, length-replicate {A = ℕ} size 1);
              aligned = accepted.0;
            })
      ]
  where
    clean_table : (n : ℕ) → All IsClean (replicate n entry_free_byte)
    clean_table zero = tt
    clean_table (suc n) = ((λ _. refl), clean_table n)
