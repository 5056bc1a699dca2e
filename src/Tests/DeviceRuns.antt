-- ===== src/Tests/DeviceRuns.antt =====
-- Runs of the drivers of the disk and the keyboard, and of the ELF loader.
use asif_os.Prelude.{
  ℕ, zero, suc, ◌*◌, ◌≡◌, refl, map, arith, Option, some, List, [], ◌∷◌, ◌++◌, replicate,
  length-replicate,
}
use asif_os.Kern.Status.{all_ok}
use asif_os.Io.{answers_at}
use asif_os.Disk.{read_sectors}
use asif_os.Disk.Serve.{Served, IsServed, serve, read_sectors-all_words}
use asif_os.Keyboard.{KeyboardBuffer}
use asif_os.Keyboard.Ps2.{data_port, wait_for_ack}
use asif_os.Keyboard.Ack.{Acked, wait_for_ack-Acked}
use asif_os.Elf.{ProgramHeader, ElfFile, header_at, program_header, validate_elf, loader_load}
use asif_os.Elf.Segments.{loader_load-loaded}
use asif_os.Kern.Str.{memcmpk, char_diff}

-- A sector for which the disk is busy once.
abbrev sector : Served
sector = record { busy = 0x80 ∷ []; ready = 0x58; words = replicate 256 7 }

sector-IsServed : IsServed 2 sector
sector-IsServed = record {
  is_busy = (refl, tt);
  is_ready = λ e. omega arith;
  whole = length-replicate {A = ℕ} 256 7;
  in_time = omega arith;
}

read_sectors-all_words_example :
    (writes : List (ℕ × ℕ)) × (read_sectors 2 9 1
        (record { answers = serve (sector ∷ []) []; writes = [] })
      ≡ some (all_ok, replicate 256 7 ++ [], record { answers = []; writes = writes }))
read_sectors-all_words_example = read_sectors-all_words 2 9 (sector ∷ []) [] (sector-IsServed, tt)

wait_for_ack-Acked_example : Acked 3 0xf5 (0xfe ∷ 0xfa ∷ 0 ∷ 0 ∷ []) [] (
    wait_for_ack 0xf5
      (record { answers = answers_at data_port (0xfe ∷ 0xfa ∷ 0 ∷ 0 ∷ []) []; writes = [] }))
wait_for_ack-Acked_example = wait_for_ack-Acked 0xf5 (0xfe ∷ 0xfa ∷ 0 ∷ 0 ∷ []) [] (omega arith)

abbrev no_keys : KeyboardBuffer
no_keys = record { head = 0; tail = 0; size = 0; buffer = replicate 1024 0 }

-- A program of one segment, the file itself.
abbrev pub elf_bytes : List ℕ
elf_bytes =
    0x7f
    ∷ 0x45
    ∷ 0x4c
    ∷ 0x46
    ∷ 1
    ∷ 1
    ∷ (replicate 22 0
        ++ (52
            ∷ (replicate 15 0
                ++ (1
                    ∷ (replicate 7 0
                        ++ (1
                            ∷ (replicate 9 0
                                ++ (64
                                    ∷ (replicate 5 0
                                        ++ (84
                                            ∷ (replicate 3 0
                                                ++ (84
                                                    ∷ (replicate 3 0
                                                        ++ (5 ∷ replicate 7 0))))))))))))))

abbrev pub segment : (paddr : ℕ) → ProgramHeader
segment paddr = record {
  p_type = 1;
  p_offset = 0;
  p_vaddr = 0x400000;
  p_paddr = paddr;
  p_filesiz = 84;
  p_memsiz = 84;
  p_flags = 5;
}

elf_bytes-all_ok : validate_elf elf_bytes ≡ all_ok
unfolding validate_elf memcmpk char_diff
elf_bytes-all_ok = refl

elf_bytes-segment : program_header elf_bytes 52 ≡ some (segment 0)
unfolding program_header header_at
elf_bytes-segment = refl

abbrev elf_file : (pheaders_ptr : ℕ) → (mem : List ℕ) → (pheaders : List ℕ) → ElfFile
elf_file pheaders_ptr mem pheaders = record {
  ptr = 4096;
  filename = 97 ∷ [];
  elf_mem = 0x1002000;
  mem = mem;
  pheaders_ptr = pheaders_ptr;
  pheaders = pheaders;
  no_bits_allocs = [];
}

-- An allocator with `s` blocks.
abbrev blocks : ℕ → ℕ → Option (ℕ × ℕ)
blocks zero n = some (0, 0)
blocks (suc s) n = some (suc s * 4096, s)

loader_load-loaded_example :
    (mem : List ℕ) × (loader_load blocks 3 (elf_file 0 elf_bytes [])
      ≡ some (all_ok, elf_file 12288 mem (52 ∷ []), 2))
    × (map (header_at mem) (52 ∷ []) ≡ segment 0x1002000 ∷ [])
loader_load-loaded_example =
    let (mem, runs, patched) =
      loader_load-loaded blocks 3 2 (elf_file 0 elf_bytes []) (segment 0 ∷ []) 12288
        elf_bytes-all_ok (omega arith) refl (omega arith) (elf_bytes-segment, tt)
        (λ e. omega arith, tt) refl (λ e. omega arith) in
    (mem, runs, patched.loads)
