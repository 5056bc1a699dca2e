-- ===== src/Heap/Layout.antt =====
-- `heap_mark_block_taken` and `heap_mark_block_free`: the entries of an allocation, and what of
-- them the code gives back.
use asif_os.Prelude.{
  ℕ, zero, suc, ◌+◌, ◌<◌, ◌≡◌, refl, sym, ap, some, List, [], ◌∷◌, ◌++◌, append_assoc, arith, ◌>>=◌,
  >>=-some, >>=_assoc, store, length, length-append, length-replicate, replicate,
}
use asif_os.Heap.{
  entry_free_byte, entry_only_byte, entry_first_byte, entry_next_byte, entry_end_byte, entry_taken,
  entry_last, mark_regular, mark_block_taken, free_run, mark_block_free,
}

-- The entries of an allocation of `n` blocks.
abbrev pub layout : ℕ → List ℕ
layout zero = []
layout (suc zero) = entry_only_byte ∷ []
layout (suc (suc n)) = entry_first_byte ∷ (replicate n entry_next_byte ++ (entry_end_byte ∷ []))

-- What is left in their place when it has been freed: only the first two entries are free.
abbrev pub freed : ℕ → List ℕ
freed zero = []
freed (suc zero) = entry_free_byte ∷ []
freed (suc (suc zero)) = entry_free_byte ∷ entry_free_byte ∷ []
freed (suc (suc (suc n))) =
    entry_free_byte ∷ entry_free_byte ∷ (replicate n entry_next_byte ++ (entry_end_byte ∷ []))

store-append :
    (before : List ℕ) (x v : ℕ) (after : List ℕ) (i : ℕ)
    → i ≡ length before
    → store (before ++ (x ∷ after)) i v ≡ some (before ++ (v ∷ after))
unfolding store
store-append [] x v after zero e = refl
store-append [] x v after (suc i) e = absurd (omega arith)
store-append (b ∷ before) x v after zero e = absurd (omega arith)
store-append (b ∷ before) x v after (suc i) e = rw (store-append before x v after i (omega arith))

shift :
    (before : List ℕ) (b : ℕ) (after : List ℕ)
    → before ++ (b ∷ after) ≡ (before ++ (b ∷ [])) ++ after
shift before b after = sym (append_assoc before (b ∷ []) after)

mark_regular-append :
    (before mid after : List ℕ) (i : ℕ)
    → i ≡ length before
    → mark_regular (before ++ (mid ++ after)) i (length mid)
      ≡ some (before ++ (replicate (length mid) entry_next_byte ++ after))
unfolding mark_regular
mark_regular-append before [] after i e = refl
mark_regular-append before (x ∷ mid) after i e =
    rw (store-append before x entry_next_byte (mid ++ after) i e) (
      rw (shift before entry_next_byte (mid ++ after)) (
        rw
          (mark_regular-append (before ++ (entry_next_byte ∷ [])) mid after (i + 1)
            (omega (arith, length-append {0} before (entry_next_byte ∷ []))))
          (simp append_assoc)))

-- The three parts of an allocation of two blocks or more.
mark_long :
    (before : List ℕ) (x : ℕ) (mid : List ℕ) (z : ℕ) (after : List ℕ)
    → mark_block_taken
        (before ++ (x ∷ (mid ++ (z ∷ after))))
        (length before)
        (suc (suc (length mid)))
      ≡ some (
          before
          ++ (entry_first_byte
              ∷ (replicate (length mid) entry_next_byte ++ (entry_end_byte ∷ after))))
unfolding mark_block_taken
mark_long before x mid z after =
    rw (store-append before x entry_first_byte (mid ++ (z ∷ after)) (length before) refl) (
      rw (shift before entry_first_byte (mid ++ (z ∷ after))) (
        rw
          (mark_regular-append (before ++ (entry_first_byte ∷ [])) mid (z ∷ after)
            (length before + 1) (omega (arith, length-append {0} before (entry_first_byte ∷ []))))
          (rw
            (← append_assoc (before ++ (entry_first_byte ∷ []))
              (replicate (length mid) entry_next_byte) (z ∷ after))
            (rw
              (store-append
                ((before ++ (entry_first_byte ∷ [])) ++ replicate (length mid) entry_next_byte) z
                entry_end_byte after (length before + 1 + length mid)
                (omega (
                  arith,
                  length-append {0} (before ++ (entry_first_byte ∷ []))
                      (replicate (length mid) entry_next_byte),
                  length-append {0} before (entry_first_byte ∷ []),
                  length-replicate {0} (length mid) entry_next_byte,
                )))
              (simp append_assoc)))))

-- A list with an element has a last one.
snoc_view : (x : ℕ) (xs : List ℕ) → (mid : List ℕ) × (z : ℕ) × (x ∷ xs ≡ mid ++ (z ∷ []))
snoc_view x [] = ([], x, refl)
snoc_view x (y ∷ xs) = let (mid, z, e) = snoc_view y xs in (x ∷ mid, z, ap (◌∷◌ x) e)

mark_snoc :
    (before : List ℕ) (x : ℕ) (ys mid : List ℕ) (z : ℕ) (after : List ℕ)
    → ys ≡ mid ++ (z ∷ [])
    → (n : ℕ) → n ≡ length mid
    → mark_block_taken (before ++ (x ∷ (ys ++ after))) (length before) (suc (suc n))
      ≡ some (before ++ (layout (suc (suc n)) ++ after))
mark_snoc before x ys mid z after e n en =
    rw (e, en) (simp append_assoc (mark_long before x mid z after))

-- Marking the blocks of `xs` as taken writes the layout of an allocation of that many blocks there,
-- and nothing else.
pub mark_block_taken-layout :
    (before xs after : List ℕ)
    → 0 < length xs
    → mark_block_taken (before ++ (xs ++ after)) (length before) (length xs)
      ≡ some (before ++ (layout (length xs) ++ after))
unfolding mark_block_taken
mark_block_taken-layout before [] after h = absurd (omega arith)
mark_block_taken-layout before (x ∷ []) after h =
    store-append before x entry_only_byte after (length before) refl
mark_block_taken-layout before (x ∷ y ∷ xs) after h =
    let (mid, z, e) = snoc_view y xs in
    mark_snoc before x (y ∷ xs) mid z after e (length xs)
      (omega (arith, ap length e, length-append {0} mid (z ∷ [])))

pub mark_block_free-append :
    (before after : List ℕ)
    → mark_block_free (before ++ after) (length before)
      ≡ (free_run after >>= λ rest. some (before ++ rest))
unfolding mark_block_free
mark_block_free-append [] after = sym (>>=-some (free_run after))
mark_block_free-append (b ∷ before) after =
    rw (mark_block_free-append before after) (>>=_assoc (free_run after) _ _)

-- Freeing an allocation from its first block gives back at most two of its entries.
pub mark_block_free-layout :
    (before : List ℕ) (n : ℕ) (after : List ℕ)
    → 0 < n
    → mark_block_free (before ++ (layout n ++ after)) (length before)
      ≡ some (before ++ (freed n ++ after))
unfolding free_run entry_taken entry_last
mark_block_free-layout before zero after h = absurd (omega arith)
mark_block_free-layout before (suc zero) after h = mark_block_free-append before _
mark_block_free-layout before (suc (suc zero)) after h = mark_block_free-append before _
mark_block_free-layout before (suc (suc (suc n))) after h = mark_block_free-append before _
