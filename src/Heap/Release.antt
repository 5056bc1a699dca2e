-- ===== src/Heap/Release.antt =====
-- `heap_free` of src/kernel/heap/heap.c in all its cases, for a pointer into a valid heap.
use asif_os.Prelude.{
  ℕ, ◌+◌, ◌-◌, ◌*◌, ◌/◌, ◌%◌, ◌^◌, ◌≤◌, ◌<◌, ◌≡◌, refl, sym, ap, ◌∙◌, ◌⊎◌, inl, inr, arith, true,
  false, Option, none, some, List, [], ◌∷◌, ◌++◌, length, split_at, replicate, Bool-cases, All,
  ◌>>=◌,
}
use asif_os.Heap.{
  Heap, block_size, entry_free_byte, entry_taken, entry_last, free_run, mark_block_free,
  calc_address_block, free,
}
use asif_os.Heap.Scan.{IsFree}
use asif_os.Heap.Layout.{mark_block_free-append}
use asif_os.Heap.Valid.{IsValid, free-IsValid}

-- The entries that are freed, and those behind them: taken ones, up to the first that is the last one of
-- an allocation, or that a free entry follows. On a free entry there are none.
abbrev pub Freed : (run after : List ℕ) → Type 0
Freed [] [] = ⊥
Freed [] (entry ∷ after) = IsFree entry
Freed (entry ∷ run) after =
    (entry_taken entry ≡ true)
    × (((entry_last entry ≡ true) × (run ≡ [])) ⊎ ((entry_last entry ≡ false) × Freed run after))

-- Taken entries without an end.
abbrev pub Endless : List ℕ → Type 0
Endless entries = All (λ e. (entry_taken e ≡ true) × (entry_last e ≡ false)) entries

free_run_lem :
    (xs : List ℕ)
    → (Endless xs × (free_run xs ≡ none))
      ⊎ ((run : List ℕ) × (after : List ℕ) × (xs ≡ run ++ after)
          × Freed run after
          × (free_run xs ≡ some (replicate (length run) entry_free_byte ++ after)))
unfolding free_run
free_run_lem [] = inl (tt, refl)
free_run_lem (x ∷ xs) = elim (Bool-cases (entry_taken x)) [
  | inr is_free ↦ inr ([], x ∷ xs, refl, is_free, rw is_free refl)
  | inl taken ↦ elim (Bool-cases (entry_last x)) [
    | inl last ↦ inr (x ∷ [], xs, refl, (taken, inl (last, refl)), rw (taken, last) refl)
    | inr more ↦ elim (free_run_lem xs) [
      | inl (endless, fault) ↦ inl (((taken, more), endless), rw (taken, more, fault) refl)
      | inr (run, after, parts, freed, done) ↦ inr (
        x ∷ run,
        after,
        ap (◌∷◌ x) parts,
        (taken, inr (more, freed)),
        rw (taken, more, done) refl,
      )
    ]
  ]
]

inside_block :
    (h : Heap) (ptr : ℕ)
    → IsValid h
    → h.start_addr ≤ ptr
    → ptr < h.start_addr + length h.table * block_size
    → calc_address_block h ptr ≡ some ((ptr - h.start_addr) / block_size)
unfolding calc_address_block
inside_block h ptr v lo hi =
    let fits = v.fits in
    let small = v.small in
    let diff : (ptr + 2 ^ 32 - h.start_addr) % 2 ^ 32 ≡ ptr - h.start_addr = omega arith in
    rw diff (ground arith)

-- On a valid heap and for a pointer into it, wherever it points, heap_free starts at the block of the
-- pointer. Either all the entries from there on are taken and none is a last one, and it runs out of the
-- table; or it frees exactly the taken entries up to and with the first last one, or up to a free entry,
-- keeps every other entry, and the heap is valid.
pub free-outcome :
    (h : Heap) (ptr : ℕ)
    → IsValid h
    → h.start_addr ≤ ptr
    → ptr < h.start_addr + length h.table * block_size
    → (before : List ℕ) × (rest : List ℕ) × (h.table ≡ before ++ rest)
      × (length before ≡ (ptr - h.start_addr) / block_size)
      × ((Endless rest × (free h ptr ≡ none))
          ⊎ ((run : List ℕ) × (after : List ℕ) × (rest ≡ run ++ after)
              × Freed run after
              × (h' : Heap) × (free h ptr ≡ some h')
              × (h' ≡ record h {
                table = before ++ (replicate (length run) entry_free_byte ++ after);
              })
              × IsValid h'))
unfolding free
free-outcome h ptr v lo hi =
    let block : ℕ = (ptr - h.start_addr) / block_size in
    let (before, rest, parts, count) = split_at block h.table (omega arith) in
    let finish : Option (List ℕ) → Option Heap =
      λ m. m >>= λ table. some (record h { table = table }) in
    let run_of : free h ptr ≡ finish (free_run rest >>= λ rest'. some (before ++ rest')) =
      ap (λ m. m >>= λ b. finish (mark_block_free h.table b)) (inside_block h ptr v lo hi)
      ∙ ap (λ b. finish (mark_block_free h.table b)) (sym count)
      ∙ ap (λ t. finish (mark_block_free t (length before))) parts
      ∙ ap finish (mark_block_free-append before rest) in
    (
      before,
      rest,
      parts,
      count,
      elim (free_run_lem rest) [
        | inl (endless, fault) ↦
            inl (endless, run_of ∙ ap (λ m. finish (m >>= λ rest'. some (before ++ rest'))) fault)
        | inr (run, after, split, freed, done) ↦
            let h' : Heap = record h {
              table = before ++ (replicate (length run) entry_free_byte ++ after);
            } in
            let runs : free h ptr ≡ some h' =
              run_of ∙ ap (λ m. finish (m >>= λ rest'. some (before ++ rest'))) done in
            inr (run, after, split, freed, h', runs, refl, free-IsValid h ptr v runs)
      ],
    )
