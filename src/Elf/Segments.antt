-- ===== src/Elf/Segments.antt =====
-- What src/kernel/elf/loader.c loads of a file, and what it writes to the file's memory.
use asif_os.Prelude.{
  ℕ, zero, suc, ◌+◌, ◌*◌, ◌%◌, ◌^◌, ◌≤◌, ◌<◌, ◌≡◌, ◌≢◌, refl, sym, ap, ◌∙◌, inr, arith, Option,
  some, List, [], ◌∷◌, ◌++◌, append-nil, append_assoc, ◌==◌, if◌then◌else◌, ◌>>=◌, pick_then,
  pick_else, All, ℕ_discrete, length, length-append, dec_lt,
}
use asif_os.Kern.Status.{Status, all_ok, is_err}
use asif_os.Elf.{
  ProgramHeader, ElfFile, pheader_size, pheader_number, pheader_offset, header_offset,
  program_header, write_paddr, place, store_header, load_segment, load_segments, loader_fuel,
  process_pheader, validate_elf, loader_load,
}
use asif_os.Elf.Patch.{length-write_paddr, write_paddr-kept}
use asif_os.Elf.Patched.{
  elf_header_size, Headers, places, InFile, Headers-kept, Patched, Patched-skip, Patched-load,
  write_paddr-elf_header,
}

undecided : {P A : Type 0} (d : Dec P) → (P → ⊥) → (x y : A) → (elim d [ no _ ↦ x | yes _ ↦ y ]) ≡ x
undecided (yes p) np x y = absurd (np p)
undecided (no np') np x y = refl

decided : {P A : Type 0} (d : Dec P) → P → (x y : A) → (elim d [ no _ ↦ x | yes _ ↦ y ]) ≡ y
decided (yes p') p x y = refl
decided (no np) p x y = absurd (np p)

module _ {S : Type 0} (malloc : S → ℕ → Option (ℕ × S)) where
  load_segment_lem :
      (room : ℕ) (s : S) (file : ElfFile) (at : ℕ) (header : ProgramHeader)
      → file.pheaders_ptr ≢ 0
      → length file.pheaders < room
      → InFile header
      → load_segment malloc room s file at header
        ≡ some (
          all_ok,
          record file {
            mem = write_paddr file.mem at ((file.elf_mem + header.p_offset) % 2 ^ 32);
            pheaders = file.pheaders ++ (at ∷ []);
          },
          s,
        )
  unfolding load_segment
  load_segment_lem room s file at header some_block fits bytes =
      pick_else bytes _ _
      ∙ ap (λ stored. stored >>= λ file'. some (all_ok, file', s)) (stored some_block fits)
    where
      stored :
          file.pheaders_ptr ≢ 0
          → length file.pheaders < room
          → store_header room (place file at ((file.elf_mem + header.p_offset) % 2 ^ 32)) at
            ≡ some (record file {
              mem = write_paddr file.mem at ((file.elf_mem + header.p_offset) % 2 ^ 32);
              pheaders = file.pheaders ++ (at ∷ []);
            })
      stored some_block fits = ground (arith, some_block, fits)

  -- The rounds of the loop: behind the last header, and on a header that is there.
  round_end :
      (fuel room : ℕ) (s : S) (file : ElfFile) (i : ℕ)
      → pheader_number file.mem ≤ i
      → load_segments malloc fuel room s file i ≡ some (all_ok, file, s)
  unfolding load_segments
  round_end zero room s file i le = refl
  round_end (suc fuel) room s file i le =
      undecided (dec_lt i (pheader_number file.mem)) (λ lt. omega arith) (some (all_ok, file, s)) _

  turn : (fuel room : ℕ) → S → ElfFile → (i at : ℕ) → ProgramHeader → Option (Status × ElfFile × S)
  turn fuel room s file i at header =
      let skip = load_segments malloc fuel room s file (i + 1) in
      let load = load_segment malloc room s file at header >>= λ (res, file', s').
      let rest = load_segments malloc fuel room s' file' (i + 1) in
      if is_err res then some (res, file', s') else rest in
      if header.p_type == 1 then load else skip

  round :
      (fuel room : ℕ) (s : S) (file : ElfFile) (i at : ℕ) (header : ProgramHeader)
      → i < pheader_number file.mem
      → header_offset file.mem i ≡ at
      → program_header file.mem at ≡ some header
      → load_segments malloc (suc fuel) room s file i ≡ turn fuel room s file i at header
  unfolding load_segments turn
  round fuel room s file i at header lt e here =
      decided (dec_lt i (pheader_number file.mem)) lt (some (all_ok, file, s)) (
        program_header file.mem (header_offset file.mem i)
        >>= turn fuel room s file i (header_offset file.mem i))
      ∙ ap (λ at. program_header file.mem at >>= turn fuel room s file i at) e
      ∙ ap (λ got. got >>= turn fuel room s file i at) here

  load_segments_lem :
      (fuel room : ℕ) (s : S) (file : ElfFile) (i at : ℕ) (headers : List ProgramHeader)
      → file.pheaders_ptr ≢ 0
      → elf_header_size ≤ at
      → header_offset file.mem i ≡ at
      → i + length headers ≡ pheader_number file.mem
      → length headers ≤ fuel
      → length file.pheaders + length headers ≤ room
      → Headers file.mem at headers
      → All InFile headers
      → (mem' : List ℕ) × (load_segments malloc fuel room s file i
          ≡ some (
            all_ok,
            record file { mem = mem'; pheaders = file.pheaders ++ places at headers },
            s,
          ))
        × Patched file.mem mem' at file.elf_mem headers
  unfolding turn
  load_segments_lem fuel room s file i at [] some_block behind e number fuel_in fits there in_file =
      (
        file.mem,
        round_end fuel room s file i (omega arith)
            ∙ ap (λ hs. some (all_ok, record file { pheaders = hs }, s))
                (sym (append-nil file.pheaders)),
        record { loads = refl; same_length = refl; others = λ i apart. refl },
      )
  load_segments_lem zero room s file i at (header ∷ headers) some_block behind e number fuel_in fits
        there in_file =
      absurd (omega arith)
  load_segments_lem (suc fuel) room s file i at (header ∷ headers) some_block behind e number
        fuel_in fits (here, there) (bytes, in_file) =
      let first = round fuel room s file i at header (omega arith) e here in
      elim (ℕ_discrete header.p_type 1) [
        | no ne ↦
            let (mem', run, p) =
              load_segments_lem fuel room s file (i + 1) (at + pheader_size) headers some_block
                (omega arith) (omega arith) (omega arith) (omega arith) (omega arith) there
                in_file in
            (
              mem',
              first
                  ∙ pick_else ne _ _
                  ∙ run
                  ∙ ap
                      (λ hs.
                        some
                          (all_ok, record file { mem = mem'; pheaders = file.pheaders ++ hs }, s))
                      (sym (pick_else ne _ _)),
              Patched-skip file.mem mem' at file.elf_mem header headers ne p,
            )
        | yes yes_load ↦
            let paddr : ℕ = (file.elf_mem + header.p_offset) % 2 ^ 32 in
            let mem1 : List ℕ = write_paddr file.mem at paddr in
            let file1 : ElfFile = record file {
              mem = mem1;
              pheaders = file.pheaders ++ (at ∷ []);
            } in
            let (same_number, same_offset) = write_paddr-elf_header file.mem at paddr behind in
            let long : length file1.pheaders ≡ length file.pheaders + 1 =
              length-append file.pheaders (at ∷ []) in
            let (mem', run, p) =
              load_segments_lem fuel room s file1 (i + 1) (at + pheader_size) headers some_block
                (omega arith) (omega (arith, same_offset)) (omega (arith, same_number))
                (omega arith) (omega (arith, long))
                (Headers-kept file.mem mem1 (at + pheader_size) headers
                  (length-write_paddr file.mem at paddr)
                  (λ i lo. write_paddr-kept file.mem at paddr i (inr (omega arith))) there)
                in_file in
            (
              mem',
              first
                  ∙ pick_then yes_load _ _
                  ∙ ap
                      (λ m. m >>= λ (res, file', s').
                        let rest = load_segments malloc fuel room s' file' (i + 1) in
                        if is_err res then some (res, file', s') else rest)
                      (load_segment_lem room s file at header some_block (omega arith) bytes)
                  ∙ run
                  ∙ ap (λ hs. some (all_ok, record file { mem = mem'; pheaders = hs }, s))
                      (append_assoc file.pheaders (at ∷ []) (places (at + pheader_size) headers)
                        ∙ ap (λ hs. file.pheaders ++ hs)
                            (sym (pick_then yes_load (at ∷ places (at + pheader_size) headers) _))),
              Patched-load file.mem mem' at file.elf_mem header headers yes_load here p,
            )
      ]

  -- A file with the marks of a program for this machine, whose program headers are behind its ELF header
  -- and all of whose segments have bytes in the file, is loaded, given memory for the pointers to its
  -- headers: the pointers are to the headers of type PT_LOAD, in the order of the file. The loader writes
  -- to the file's memory, but to nothing except the fields p_paddr of the headers, and what the pointers
  -- then point to is these headers, each with the place of its bytes in the file's memory.
  pub loader_load-loaded :
      (s s' : S) (file : ElfFile) (headers : List ProgramHeader) (ptr : ℕ)
      → validate_elf file.mem ≡ all_ok
      → elf_header_size ≤ pheader_offset file.mem
      → length headers ≡ pheader_number file.mem
      → length headers ≤ loader_fuel
      → Headers file.mem (pheader_offset file.mem) headers
      → All InFile headers
      → malloc s (pheader_number file.mem * 4) ≡ some (ptr, s')
      → ptr ≢ 0
      → (mem' : List ℕ) × (loader_load malloc s file
          ≡ some (
            all_ok,
            record file {
              mem = mem';
              pheaders_ptr = ptr;
              pheaders = places (pheader_offset file.mem) headers;
            },
            s',
          ))
        × Patched file.mem mem' (pheader_offset file.mem) file.elf_mem headers
  unfolding loader_load process_pheader
  loader_load-loaded s s' file headers ptr valid behind number few there in_file given some_block =
      let (mem', run, patched) =
        load_segments_lem loader_fuel (pheader_number file.mem) s'
          (record file { pheaders_ptr = ptr; pheaders = [] }) 0 (pheader_offset file.mem) headers
          some_block behind (omega arith) (omega (arith, number)) few (omega (arith, number)) there
          in_file in
      (mem', rw (valid, given) run, patched)
