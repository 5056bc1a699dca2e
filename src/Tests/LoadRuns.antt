-- ===== src/Tests/LoadRuns.antt =====
-- A process of src/kernel/task/process.c that runs a small ELF program, the file of every name.
use asif_os.Prelude.{
  ℕ, ◌≡◌, ◌≢◌, refl, arith, none, some, [], ◌∷◌, inr, load, store, ◌∙◌, replicate, dec_lt,
}
use asif_os.Prelude.Int.{pos}
use asif_os.Kern.Status.{all_ok, ok}
use asif_os.Fs.{NuttleFs}
use asif_os.Fs.Calls.{Files}
use asif_os.Elf.{ElfFile}
use asif_os.Elf.Load.{elf_load}
use asif_os.Tests.DeviceRuns.{elf_bytes}
use asif_os.Tests.OpenRuns.{name}
use asif_os.Tests.ChunkRuns.{give, take_back, no_words, give-new_4gb_chunk}
use asif_os.Kern.Str.{memcmpk, char_diff, strcmpk}
use asif_os.Pparser.{
  parse_path, extract_drive_number, is_valid_path, make_path_part, extract_path_part, split_part,
  parse_parts, get_path, freed_blocks,
}
use asif_os.Fs.Table.{new_descriptor, free_slot, get_fd}
use asif_os.Fs.Calls.{file_open, file_read, file_stat}
use asif_os.Elf.{
  loader_load, process_pheader, load_segments, load_segment, header_at, program_header, write_paddr,
  validate_elf,
}
use asif_os.Elf.Load.{fetch_mode}
use asif_os.Task.{Tasks, Task, no_registers}
use asif_os.Paging.{get_physical_addr}
use asif_os.Process.Kernel.{Kernel, no_process, process_get, free_process_slot}
use asif_os.Process.Load.{process_load}
use asif_os.Process.Started.{process_load-IsReady}

abbrev pub programs : NuttleFs ℕ ℕ
programs = record {
  open_file = λ s parts mode. some (ok 0, s);
  read_file = λ s file size nmemb. some (ok nmemb, elf_bytes, file, s);
  seek_file = λ file offset whence. (all_ok, file);
  stat_file = λ file ptr. (all_ok, some (record { flags = 0; size = 84 }));
  close_file = λ s file. some (all_ok, s);
  tell_file = λ file. pos 0;
}

abbrev files : Files ℕ ℕ
files = record { heap = 0x1003000; table = replicate 4 none }

abbrev file : ElfFile
file = record {
  ptr = 0x1003000;
  filename = name;
  elf_mem = 0x1009000;
  mem = write_paddr elf_bytes 52 0x1009000;
  pheaders_ptr = 0x100a000;
  pheaders = 52 ∷ [];
  no_bits_allocs = [];
}

abbrev files' : Files ℕ ℕ
files' = record {
  heap = 0x100b000;
  table = some (record { ptr = 0x1008000; index = 1; file_data = 0 }) ∷ replicate 3 none;
}

elf_load_run : elf_load give take_back programs files name [] ≡ some (ok file, files')
unfolding elf_load fetch_mode file_open file_read file_stat new_descriptor free_slot get_fd
    parse_path make_path_part extract_path_part split_part parse_parts get_path extract_drive_number
    is_valid_path freed_blocks loader_load process_pheader load_segments load_segment program_header
    header_at write_paddr validate_elf memcmpk char_diff strcmpk load store dec_lt
elf_load_run = refl

-- A task of another process.
abbrev pub other_task : Task
other_task = record { chunk = 0; registers = no_registers; process = 0x500000; prev = 0; next = 0 }

abbrev tasks : Tasks
tasks = record {
  node = λ at. other_task;
  head = 0x600000;
  tail = 0x600000;
  current = 0x600000;
  released = [];
}

abbrev pub kernel : Kernel ℕ ℕ
kernel = record {
  files = record { heap = 0x1000000; table = replicate 4 none };
  mem = no_words;
  tasks = tasks;
  process = λ addr. no_process;
  processes = 0x500000 ∷ replicate 15 0;
  current = 0;
}

first_slot : free_process_slot kernel.processes 0 ≡ ok 1
unfolding free_process_slot
first_slot = refl

not_first : pos 0 ≢ pos 1
not_first e = cc

first_process : process_get kernel (pos 0) ≡ ok 0x500000
unfolding process_get
first_process = refl

process_load-IsReady_example :
    (k : Kernel ℕ ℕ) × (process_load give take_back programs kernel name []
      ≡ some (ok 0x1000000, k))
    × (process_get k (pos 1) ≡ ok 0x1000000)
    × (process_get k (pos 0) ≡ ok 0x500000)
    × (get_physical_addr k.mem 0x1014000 0x400010 ≡ ok 0x1009010)
unfolding header_at write_paddr
process_load-IsReady_example =
    let (mem, made, word, valid) = give-new_4gb_chunk 0x1014000 refl (omega arith) (omega arith) in
    let (k, runs, ready, listed, here, others) =
      process_load-IsReady give take_back programs kernel name [] 1 0x1000000 0x100b000 0x1013000
        0x1003000 0x1013000 0x1014000 0x1416000 file files'
        (record { ptr = 0x1415000; directory = 0x1014000 }) mem (0x600000 ∷ []) refl first_slot refl
        (λ e. omega arith) (omega arith) elf_load_run refl (λ e. omega arith) refl
        (λ e. omega arith) made (λ e. omega arith) word valid
        (record {
          head_at = refl;
          tail_at = refl;
          chain = (λ e. omega arith, refl, refl, tt);
          apart = (tt, tt);
        })
        (λ e. omega arith, tt)
        (((omega arith, refl, refl, omega arith, omega arith, omega arith), tt), (tt, tt))
        (inr (omega arith), tt) refl (omega arith) in
    (
      k,
      runs,
      here,
      others (pos 0) not_first ∙ first_process,
      ready.program_mapped.0 0x10 (omega arith),
    )
