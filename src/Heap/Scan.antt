-- ===== src/Heap/Scan.antt =====
-- `heap_get_start_block`: what its first-fit scan finds, and when it finds nothing.
use asif_os.Prelude.{
  ℕ, ◌+◌, ◌≤◌, ◌<◌, ◌≡◌, refl, ap, subst, sym, dec_lt, ◌≢◌, ◌⊎◌, inl, inr, false, Option, none,
  some, List, [], ◌∷◌, ◌++◌, append_assoc, arith, Bool-cases, length, length-append, All,
  All-append,
}
use asif_os.Heap.{entry_taken, scan_free, scan, get_start_block}

abbrev pub IsFree : ℕ → Type 0
IsFree entry = entry_taken entry ≡ false

-- `start` is the first block of a run of free entries that the scan for `blocks` blocks accepts:
-- one more than `blocks` of them, or fewer at the end of the table.
pub record Found (blocks : ℕ) (table : List ℕ) (start : ℕ) : Type 0 where
  pub before : List ℕ
  pub run : List ℕ
  pub after : List ℕ
  pub parts : table ≡ before ++ (run ++ after)
  pub starts : start ≡ length before
  pub free : All IsFree run
  pub fits : (length run ≡ blocks + 1) ⊎ ((after ≡ []) × (0 < length run) × (length run ≤ blocks))

-- The loop's `bs` and `bc` after the entries `before` and the free entries `run`.
abbrev Tracks : List ℕ → List ℕ → Option ℕ → ℕ → Type 0
Tracks before run none bc = (run ≡ []) × (bc ≡ 0)
Tracks before run (some bs) bc = (bs ≡ length before) × (length run ≡ bc + 1)

skip :
    (before run : List ℕ) (e : ℕ) (rest : List ℕ)
    → (before ++ (run ++ (e ∷ []))) ++ rest ≡ before ++ (run ++ (e ∷ rest))
skip before run e rest = simp append_assoc

extend :
    (before run : List ℕ) (e : ℕ) (rest : List ℕ)
    → before ++ ((run ++ (e ∷ [])) ++ rest) ≡ before ++ (run ++ (e ∷ rest))
extend before run e rest = simp append_assoc

length_skip :
    (before run : List ℕ) (e : ℕ)
    → length (before ++ (run ++ (e ∷ []))) ≡ length before + length run + 1
length_skip before run e =
    omega (arith, length-append {0} before (run ++ (e ∷ [])), length-append {0} run (e ∷ []))

scan-Found :
    (blocks : ℕ) (before run rest : List ℕ) (i : ℕ) (bs : Option ℕ) (bc : ℕ) {s : ℕ}
    → i ≡ length before + length run
    → bc < blocks
    → All IsFree run
    → Tracks before run bs bc
    → scan blocks rest i bs bc ≡ some s
    → Found blocks (before ++ (run ++ rest)) s
unfolding scan scan_free
scan-Found blocks before run [] i none bc at lt fr tr h = cc
scan-Found blocks before run [] i (some bs) bc at lt fr tr h = record {
  before = before;
  run = run;
  after = [];
  parts = refl;
  starts = ground (arith, h);
  free = fr;
  fits = inr (refl, omega arith, omega arith);
}
scan-Found blocks before run (e ∷ rest) i none bc {s} at lt fr tr h =
    elim (Bool-cases (entry_taken e)) [
      | inl taken ↦
          subst (λ t. Found blocks t s) (skip before run e rest)
            (scan-Found blocks (before ++ (run ++ (e ∷ []))) [] rest (i + 1) none 0
              (omega (arith, length_skip before run e)) (omega arith) tt (refl, refl)
              (rw taken at h))
      | inr free ↦
          subst (λ t. Found blocks t s) (extend before run e rest)
            (scan-Found blocks before (run ++ (e ∷ [])) rest (i + 1) (some i) bc
              (omega (arith, length-append {0} run (e ∷ []))) lt
              (All-append IsFree run (e ∷ []) fr (free, tt))
              (omega (arith, length-append {0} run (e ∷ []), ap length tr.0)) (ground arith))
    ]
scan-Found blocks before run (e ∷ rest) i (some bs) bc {s} at lt fr tr h =
    elim (Bool-cases (entry_taken e)) [
      | inl taken ↦
          subst (λ t. Found blocks t s) (skip before run e rest)
            (scan-Found blocks (before ++ (run ++ (e ∷ []))) [] rest (i + 1) none 0
              (omega (arith, length_skip before run e)) (omega arith) tt (refl, refl)
              (rw taken at h))
      | inr free ↦
          let fr' : All IsFree (run ++ (e ∷ [])) = All-append IsFree run (e ∷ []) fr (free, tt) in
          elim (dec_lt (bc + 1) blocks) [
            | yes more ↦
                subst (λ t. Found blocks t s) (extend before run e rest)
                  (scan-Found blocks before (run ++ (e ∷ [])) rest (i + 1) (some bs) (bc + 1)
                    (omega (arith, length-append {0} run (e ∷ []))) more fr'
                    (omega (arith, length-append {0} run (e ∷ []), tr)) (ground arith))
            | no full ↦ record {
              before = before;
              run = run ++ (e ∷ []);
              after = rest;
              parts = sym (extend before run e rest);
              starts = ground arith;
              free = fr';
              fits = inl (omega (arith, length-append {0} run (e ∷ []), tr));
            }
          ]
    ]

-- What the scan returns is the first block of a run of free entries: one more than asked for, or
-- all that is left at the end of the table.
pub get_start_block-Found :
    (table : List ℕ) (blocks : ℕ) {s : ℕ}
    → 0 < blocks
    → get_start_block table blocks ≡ some s
    → Found blocks table s
unfolding get_start_block
get_start_block-Found table blocks lt h =
    scan-Found blocks [] [] table 0 none 0 (omega arith) lt tt (refl, refl) h

widen : {a b c : ℕ} {X : Type 0} → b ≤ c → (a ≤ b) ⊎ X → (a ≤ c) ⊎ X
widen h (inl long) = inl (omega arith)
widen h (inr ends) = inr ends

module _ (blocks : ℕ) (after : List ℕ) where
  -- A run that is long enough, or that ends the table, is not passed over.
  scan-run :
      (run : List ℕ) (i bs bc : ℕ)
      → bc < blocks
      → All IsFree run
      → (blocks ≤ bc + length run) ⊎ (after ≡ [])
      → scan blocks (run ++ after) i (some bs) bc ≢ none
  unfolding scan scan_free
  scan-run [] i bs bc lt fr (inl long) h = absurd (omega arith)
  scan-run [] i bs bc lt fr (inr ends) h = cc (rw ends at h)
  scan-run (e ∷ run) i bs bc lt fr fit h = elim (dec_lt (bc + 1) blocks) [
    | yes more ↦ scan-run run (i + 1) bs (bc + 1) more fr.1 (widen (omega arith) fit) (ground arith)
    | no full ↦ ground arith
  ]

  -- The same of a run that stands behind other entries, from any state of the loop.
  scan-reaches :
      (before : List ℕ) (e : ℕ) (run : List ℕ) (i : ℕ) (bs : Option ℕ) (bc : ℕ)
      → bc < blocks
      → All IsFree (e ∷ run)
      → (blocks ≤ length run) ⊎ (after ≡ [])
      → scan blocks (before ++ (e ∷ run ++ after)) i bs bc ≢ none
  unfolding scan scan_free
  scan-reaches [] e run i none bc lt fr fit h =
      scan-run run (i + 1) i bc lt fr.1 (widen (omega arith) fit) (ground arith)
  scan-reaches [] e run i (some bs) bc lt fr fit h =
      scan-run (e ∷ run) i bs bc lt fr (widen (omega arith) fit) h
  scan-reaches (x ∷ before) e run i none bc lt fr fit h = elim (Bool-cases (entry_taken x)) [
    | inl taken ↦ scan-reaches before e run (i + 1) none 0 (omega arith) fr fit (ground arith)
    | inr free ↦ scan-reaches before e run (i + 1) (some i) bc lt fr fit (ground arith)
  ]
  scan-reaches (x ∷ before) e run i (some bs) bc lt fr fit h = elim (Bool-cases (entry_taken x)) [
    | inl taken ↦ scan-reaches before e run (i + 1) none 0 (omega arith) fr fit (ground arith)
    | inr free ↦ elim (dec_lt (bc + 1) blocks) [
      | yes more ↦ scan-reaches before e run (i + 1) (some bs) (bc + 1) more fr fit (ground arith)
      | no full ↦ ground arith
    ]
  ]

get_start_block-finds :
    (blocks : ℕ) (before run after : List ℕ)
    → 0 < blocks
    → All IsFree run
    → (length run ≡ blocks + 1) ⊎ ((after ≡ []) × (0 < length run) × (length run ≤ blocks))
    → get_start_block (before ++ (run ++ after)) blocks ≢ none
unfolding get_start_block
get_start_block-finds blocks before [] after lt fr (inl long) = absurd (omega arith)
get_start_block-finds blocks before [] after lt fr (inr ends) = absurd (omega arith)
get_start_block-finds blocks before (e ∷ run) after lt fr (inl long) =
    scan-reaches blocks after before e run 0 none 0 lt fr (inl (omega arith))
get_start_block-finds blocks before (e ∷ run) after lt fr (inr ends) =
    scan-reaches blocks after before e run 0 none 0 lt fr (inr ends.0)

-- The scan finds a block exactly when the table has a run of free entries that it accepts: one
-- entry more than the blocks asked for, or all the entries up to the end of the table. What it
-- returns then starts such a run.
pub get_start_block_iff :
    (table : List ℕ) (blocks : ℕ)
    → 0 < blocks
    → ((s : ℕ) → get_start_block table blocks ≡ some s → Found blocks table s)
      × ((s : ℕ) → Found blocks table s → get_start_block table blocks ≢ none)
get_start_block_iff table blocks lt = (
  λ s. get_start_block-Found table blocks lt,
  λ s f e. get_start_block-finds blocks f.before f.run f.after lt f.free f.fits (rw f.parts at e),
)
