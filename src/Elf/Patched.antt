-- ===== src/Elf/Patched.antt =====
-- What the loop of src/kernel/elf/loader.c leaves in a file's memory: the program headers, and the
-- addresses it writes to them.
use asif_os.Prelude.{
  ℕ, suc, ◌+◌, ◌*◌, ◌%◌, ◌^◌, ◌≤◌, ◌<◌, ◌≡◌, ◌≢◌, sym, ap, ap₂, subst, ◌∙◌, ◌⊎◌, inl, arith, some,
  List, [], ◌∷◌, ◌==◌, if◌then◌else◌, pick_then, pick_else, length, map, get_or,
}
use asif_os.Elf.{
  ProgramHeader, pheader_size, pheader_number, pheader_offset, header_at, program_header,
  write_paddr,
}
use asif_os.Elf.Patch.{
  Agree, le16-Agree, le32-Agree, header_at-Agree, program_header-some, program_header-inside,
  length-write_paddr, write_paddr-kept, header_at-write_paddr,
}

-- The size of the header of a file.
abbrev pub elf_header_size : ℕ
elf_header_size = 52

-- The headers of a file, from an offset on.
abbrev pub Headers : List ℕ → ℕ → List ProgramHeader → Type 0
Headers mem at [] = Unit {0}
Headers mem at (header ∷ headers) =
    (program_header mem at ≡ some header) × Headers mem (at + pheader_size) headers

-- The headers that are loaded, each with the address of its bytes in memory, and where they are.
abbrev pub loaded : ℕ → List ProgramHeader → List ProgramHeader
loaded elf_mem [] = []
loaded elf_mem (header ∷ headers) =
    let rest = loaded elf_mem headers in
    if header.p_type == 1
    then record header { p_paddr = (elf_mem + header.p_offset) % 2 ^ 32 } ∷ rest
    else rest

abbrev pub places : ℕ → List ProgramHeader → List ℕ
places at [] = []
places at (header ∷ headers) =
    let rest = places (at + pheader_size) headers in if header.p_type == 1 then at ∷ rest else rest

-- Every segment that is loaded has bytes in the file.
abbrev pub InFile : ProgramHeader → Type 0
InFile header = header.p_filesiz ≢ 0

-- Headers that a write in front of them leaves alone.
pub Headers-kept :
    (mem mem' : List ℕ) (at : ℕ) (headers : List ProgramHeader)
    → length mem' ≡ length mem
    → ((i : ℕ) → at ≤ i → get_or mem' i 0 ≡ get_or mem i 0)
    → Headers mem at headers
    → Headers mem' at headers
Headers-kept mem mem' at [] len same there = tt
Headers-kept mem mem' at (header ∷ headers) len same (here, there) =
    let (inside, e) = program_header-inside mem at here in
    (
      program_header-some mem' at (omega (arith, len))
          ∙ ap some (header_at-Agree mem mem' at (λ i lo hi. same i lo) ∙ e),
      Headers-kept mem mem' (at + pheader_size) headers len (λ i lo. same i (omega arith)) there,
    )

-- A byte that is in no field `p_paddr` of so many headers.
abbrev pub Apart : (i at count : ℕ) → Type 0
Apart i at count =
    (k : ℕ) → k < count → (i < at + k * pheader_size + 12) ⊎ (at + k * pheader_size + 16 ≤ i)

-- What the loop makes of the headers from `at` on: a memory that differs in their fields `p_paddr` only,
-- in which those that are loaded have the address of their bytes.
pub record Patched (mem mem' : List ℕ) (at elf_mem : ℕ) (headers : List ProgramHeader)
    : Type 0 where
  pub loads : map (header_at mem') (places at headers) ≡ loaded elf_mem headers
  pub same_length : length mem' ≡ length mem
  pub others : (i : ℕ) → Apart i at (length headers) → get_or mem' i 0 ≡ get_or mem i 0

Apart-rest : (i at count : ℕ) → Apart i at (suc count) → Apart i (at + pheader_size) count
Apart-rest i at count apart k lt =
    let same : at + suc k * pheader_size ≡ at + pheader_size + k * pheader_size = omega arith in
    subst (λ n. (i < n + 12) ⊎ (n + 16 ≤ i)) same (apart (suc k) (omega arith))

Apart-first : (i at count : ℕ) → Apart i at (suc count) → (i < at + 12) ⊎ (at + 16 ≤ i)
Apart-first i at count apart =
    let same : at + 0 * pheader_size ≡ at = omega arith in
    subst (λ n. (i < n + 12) ⊎ (n + 16 ≤ i)) same (apart 0 (omega arith))

-- The header in front of headers that the loop goes on with.
Patched-front :
    (mem mem' : List ℕ) (at elf_mem : ℕ) (headers : List ProgramHeader)
    → Patched mem mem' (at + pheader_size) elf_mem headers
    → header_at mem' at ≡ header_at mem at
Patched-front mem mem' at elf_mem headers p =
    header_at-Agree mem mem' at (λ i lo hi. p.others i (λ k lt. inl (omega arith)))

pub Patched-skip :
    (mem mem' : List ℕ) (at elf_mem : ℕ) (header : ProgramHeader) (headers : List ProgramHeader)
    → header.p_type ≢ 1
    → Patched mem mem' (at + pheader_size) elf_mem headers
    → Patched mem mem' at elf_mem (header ∷ headers)
Patched-skip mem mem' at elf_mem header headers ne p = record {
  loads = ap (map (header_at mem')) (pick_else ne _ _) ∙ p.loads ∙ sym (pick_else ne _ _);
  same_length = p.same_length;
  others = λ i apart. p.others i (Apart-rest i at (length headers) apart);
}

pub Patched-load :
    (mem mem' : List ℕ) (at elf_mem : ℕ) (header : ProgramHeader) (headers : List ProgramHeader)
    → header.p_type ≡ 1
    → program_header mem at ≡ some header
    → Patched
        (write_paddr mem at ((elf_mem + header.p_offset) % 2 ^ 32))
        mem'
        (at + pheader_size)
        elf_mem
        headers
    → Patched mem mem' at elf_mem (header ∷ headers)
Patched-load mem mem' at elf_mem header headers e here p =
    let paddr : ℕ = (elf_mem + header.p_offset) % 2 ^ 32 in
    let mem1 : List ℕ = write_paddr mem at paddr in
    let (inside, read) = program_header-inside mem at here in
    record {
      loads =
          ap (map (header_at mem')) (pick_then e (at ∷ places (at + pheader_size) headers) _)
          ∙ ap₂ (λ x xs. x ∷ xs)
              (Patched-front mem1 mem' at elf_mem headers p
                ∙ header_at-write_paddr mem at paddr inside (omega arith)
                ∙ ap (λ (h : ProgramHeader). record h { p_paddr = paddr }) read)
              p.loads
          ∙ sym (pick_then e (record header { p_paddr = paddr } ∷ loaded elf_mem headers) _);
      same_length = p.same_length ∙ length-write_paddr mem at paddr;
      others = λ i apart.
          p.others i (Apart-rest i at (length headers) apart)
          ∙ write_paddr-kept mem at paddr i (Apart-first i at (length headers) apart);
    }

-- The fields of the ELF header that the loop reads are in front of the program headers.
pub write_paddr-elf_header :
    (mem : List ℕ) (at paddr : ℕ)
    → elf_header_size ≤ at
    → (pheader_number (write_paddr mem at paddr) ≡ pheader_number mem)
      × (pheader_offset (write_paddr mem at paddr) ≡ pheader_offset mem)
write_paddr-elf_header mem at paddr le =
    let same : Agree mem (write_paddr mem at paddr) 0 52 =
      λ i lo hi. write_paddr-kept mem at paddr i (inl (omega arith)) in
    (
      le16-Agree mem (write_paddr mem at paddr) 0 52 44 same (omega arith) (omega arith),
      le32-Agree mem (write_paddr mem at paddr) 0 52 28 same (omega arith) (omega arith),
    )
