-- ===== src/Elf/Patch.antt =====
-- The write of `pheader -> p_paddr` in src/kernel/elf/loader.c, and the words of the file's memory.
use asif_os.Prelude.{
  ℕ, ◌+◌, ◌*◌, ◌/◌, ◌%◌, ◌^◌, ◌≤◌, ◌<◌, ◌≡◌, ◌≢◌, refl, sym, ap, ap₂, ◌∙◌, ◌⊎◌, inl, inr, arith,
  some, List, length, set, length-set, get_or, get_or-set_self, get_or-set_ne, ltb_else, some_inj,
  dec_lt, ltb_then, none,
}
use asif_os.Fat16.{le16, le32}
use asif_os.Elf.{ProgramHeader, pheader_size, header_at, program_header, write_paddr}

-- Two memories with the same bytes from one offset on, up to another.
abbrev pub Agree : (mem mem' : List ℕ) → (from to : ℕ) → Type 0
Agree mem mem' from to = (i : ℕ) → from ≤ i → i < to → get_or mem' i 0 ≡ get_or mem i 0

pub le16-Agree :
    (mem mem' : List ℕ) (from to at : ℕ)
    → Agree mem mem' from to
    → from ≤ at
    → at + 2 ≤ to
    → le16 mem' at ≡ le16 mem at
le16-Agree mem mem' from to at same lo hi =
    ap₂ (λ (a b : ℕ). a + 256 * b) (same at lo (omega arith))
      (same (at + 1) (omega arith) (omega arith))

pub le32-Agree :
    (mem mem' : List ℕ) (from to at : ℕ)
    → Agree mem mem' from to
    → from ≤ at
    → at + 4 ≤ to
    → le32 mem' at ≡ le32 mem at
le32-Agree mem mem' from to at same lo hi =
    ap₂ (λ (a b : ℕ). a + 65536 * b) (le16-Agree mem mem' from to at same lo (omega arith))
      (le16-Agree mem mem' from to (at + 2) same (omega arith) (omega arith))

pub header_at-Agree :
    (mem mem' : List ℕ) (at : ℕ)
    → Agree mem mem' at (at + pheader_size)
    → header_at mem' at ≡ header_at mem at
unfolding header_at
header_at-Agree mem mem' at same =
    let word : (k : ℕ) → k + 4 ≤ pheader_size → le32 mem' (at + k) ≡ le32 mem (at + k) = λ k small.
      le32-Agree mem mem' at (at + pheader_size) (at + k) same (omega arith) (omega arith) in
    let first : le32 mem' at ≡ le32 mem at =
      le32-Agree mem mem' at (at + pheader_size) at same (omega arith) (omega arith) in
    rw
      (
        first,
        word 4 (omega arith),
        word 8 (omega arith),
        word 12 (omega arith),
        word 16 (omega arith),
        word 20 (omega arith),
        word 24 (omega arith),
      )
      refl

pub program_header-some :
    (mem : List ℕ) (at : ℕ)
    → at + pheader_size ≤ length mem
    → program_header mem at ≡ some (header_at mem at)
unfolding program_header
program_header-some mem at le = ltb_else le _ _

-- A header that is read lies in the memory.
pub program_header-inside :
    (mem : List ℕ) (at : ℕ) {header : ProgramHeader}
    → program_header mem at ≡ some header
    → (at + pheader_size ≤ length mem) × (header_at mem at ≡ header)
unfolding program_header
program_header-inside mem at e = elim (dec_lt (length mem) (at + pheader_size)) [
  | yes lt ↦ cc (sym (ltb_then lt none (some (header_at mem at))) ∙ e)
  | no inside ↦ (
    omega arith,
    some_inj (
        sym (
          ltb_else {i = length mem} {k = at + pheader_size} (omega arith) none
            (some (header_at mem at)))
        ∙ e),
  )
]

pub length-write_paddr :
    (mem : List ℕ) (at paddr : ℕ) → length (write_paddr mem at paddr) ≡ length mem
unfolding write_paddr
length-write_paddr mem at paddr =
    length-set _ (at + 15) _
    ∙ length-set _ (at + 14) _
    ∙ length-set _ (at + 13) _
    ∙ length-set mem (at + 12) _

-- The write changes the four bytes of its field only.
pub write_paddr-kept :
    (mem : List ℕ) (at paddr i : ℕ)
    → (i < at + 12) ⊎ (at + 16 ≤ i)
    → get_or (write_paddr mem at paddr) i 0 ≡ get_or mem i 0
unfolding write_paddr
write_paddr-kept mem at paddr i off =
    let ne : (k : ℕ) → 12 ≤ k → k < 16 → at + k ≢ i = λ k lo hi e. away k lo hi e off in
    get_or-set_ne _ (at + 15) i _ 0 (ne 15 (omega arith) (omega arith))
    ∙ get_or-set_ne _ (at + 14) i _ 0 (ne 14 (omega arith) (omega arith))
    ∙ get_or-set_ne _ (at + 13) i _ 0 (ne 13 (omega arith) (omega arith))
    ∙ get_or-set_ne mem (at + 12) i _ 0 (ne 12 (omega arith) (omega arith))
  where
    away : (k : ℕ) → 12 ≤ k → k < 16 → at + k ≡ i → (i < at + 12) ⊎ (at + 16 ≤ i) → ⊥
    away k lo hi e (inl below) = omega arith
    away k lo hi e (inr above) = omega arith

-- The field then holds the word.
pub write_paddr-le32 :
    (mem : List ℕ) (at paddr : ℕ)
    → at + 16 ≤ length mem
    → paddr < 2 ^ 32
    → le32 (write_paddr mem at paddr) (at + 12) ≡ paddr
unfolding write_paddr
write_paddr-le32 mem at paddr le lt =
    let m1 : List ℕ = set mem (at + 12) (paddr % 256) in
    let m2 : List ℕ = set m1 (at + 13) (paddr / 256 % 256) in
    let m3 : List ℕ = set m2 (at + 14) (paddr / 65536 % 256) in
    let m4 : List ℕ = set m3 (at + 15) (paddr / 16777216 % 256) in
    let l1 : length m1 ≡ length mem = length-set mem (at + 12) _ in
    let l2 : length m2 ≡ length m1 = length-set m1 (at + 13) _ in
    let l3 : length m3 ≡ length m2 = length-set m2 (at + 14) _ in
    let b0 : get_or m4 (at + 12) 0 ≡ paddr % 256 =
      get_or-set_ne m3 (at + 15) (at + 12) _ 0 (λ e. omega arith)
      ∙ get_or-set_ne m2 (at + 14) (at + 12) _ 0 (λ e. omega arith)
      ∙ get_or-set_ne m1 (at + 13) (at + 12) _ 0 (λ e. omega arith)
      ∙ get_or-set_self mem (at + 12) _ 0 (omega arith) in
    let b1 : get_or m4 (at + 12 + 1) 0 ≡ paddr / 256 % 256 =
      ap (λ i. get_or m4 i 0) {y = at + 13} (omega arith)
      ∙ get_or-set_ne m3 (at + 15) (at + 13) _ 0 (λ e. omega arith)
      ∙ get_or-set_ne m2 (at + 14) (at + 13) _ 0 (λ e. omega arith)
      ∙ get_or-set_self m1 (at + 13) _ 0 (omega (arith, l1)) in
    let b2 : get_or m4 (at + 12 + 2) 0 ≡ paddr / 65536 % 256 =
      ap (λ i. get_or m4 i 0) {y = at + 14} (omega arith)
      ∙ get_or-set_ne m3 (at + 15) (at + 14) _ 0 (λ e. omega arith)
      ∙ get_or-set_self m2 (at + 14) _ 0 (omega (arith, l1, l2)) in
    let b3 : get_or m4 (at + 12 + 2 + 1) 0 ≡ paddr / 16777216 % 256 =
      ap (λ i. get_or m4 i 0) {y = at + 15} (omega arith)
      ∙ get_or-set_self m3 (at + 15) _ 0 (omega (arith, l1, l2, l3)) in
    omega (arith, b0, b1, b2, b3)

-- A header with an address written to it.
pub header_at-write_paddr :
    (mem : List ℕ) (at paddr : ℕ)
    → at + pheader_size ≤ length mem
    → paddr < 2 ^ 32
    → header_at (write_paddr mem at paddr) at ≡ record (header_at mem at) { p_paddr = paddr }
unfolding header_at
header_at-write_paddr mem at paddr le lt =
    let mem' : List ℕ = write_paddr mem at paddr in
    let low : Agree mem mem' at (at + 12) = λ i lo hi. write_paddr-kept mem at paddr i (inl hi) in
    let high : Agree mem mem' (at + 16) (at + 32) =
      λ i lo hi. write_paddr-kept mem at paddr i (inr lo) in
    let after : (k : ℕ) → 16 ≤ k → k + 4 ≤ 32 → le32 mem' (at + k) ≡ le32 mem (at + k) = λ k lo hi.
      le32-Agree mem mem' (at + 16) (at + 32) (at + k) high (omega arith) (omega arith) in
    rw
      (
        le32-Agree mem mem' at (at + 12) at low (omega arith) (omega arith),
        le32-Agree mem mem' at (at + 12) (at + 4) low (omega arith) (omega arith),
        le32-Agree mem mem' at (at + 12) (at + 8) low (omega arith) (omega arith),
        write_paddr-le32 mem at paddr (omega arith) lt,
        after 16 (omega arith) (omega arith),
        after 20 (omega arith) (omega arith),
        after 24 (omega arith) (omega arith),
      )
      refl
