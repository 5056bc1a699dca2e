-- ===== src/Process/Started.antt =====
-- A run of `process_load` of src/kernel/task/process.c on an ELF program.
use asif_os.Prelude.{
  ℕ, ◌+◌, ◌%◌, ◌^◌, ◌≤◌, ◌<◌, ◌≡◌, ◌≢◌, refl, sym, ap, ap₂, ◌∙◌, arith, Option, some, List, [], ◌∷◌,
  ◌++◌, length, All, ◌>>=◌, if◌then◌else◌, drop, replicate, length-replicate, set, get_or-set_self,
  get_or-set_ne, ltb,
}
use asif_os.Prelude.Int.{ℤ, pos, negsuc}
use asif_os.Kern.Status.{all_ok, einvarg, ok, err}
use asif_os.Keyboard.{init_buffer}
use asif_os.Paging.{Memory, paging_size}
use asif_os.Paging.Translate.{IsValid}
use asif_os.Paging.Chunk.{PagingChunk, new_4gb_chunk}
use asif_os.Pparser.{max_path_size}
use asif_os.Fs.{NuttleFs}
use asif_os.Fs.Calls.{Files}
use asif_os.Elf.{ElfFile}
use asif_os.Elf.Load.{elf_load}
use asif_os.Task.{first_registers}
use asif_os.Task.Listed.{Listed, task_new-Listed}
use asif_os.Process.Map.{Program, elf, map_memory, stack_size, stack_end}
use asif_os.Process.Segments.{Maps}
use asif_os.Process.Mapped.{Loaded, Fits, Leaves, map_memory_lem}
use asif_os.Process.Kernel.{
  NuttleProcess, Kernel, no_process, write_process, with_heap, free_process_slot, process_get,
  max_processes,
}
use asif_os.Process.Load.{map_process, process_load, load_free_slot}
use asif_os.Process.Loaded.{
  free_process_slot_lem, write_process_same, fill_data-elf, create_task_lem, mapped, finished,
  map_process_lem, add_stack_lem, load_to_slot_lem,
}

module _ {S Data : Type 0} where
  -- What `process_get` answers once a slot is filled.
  process_get-set :
      (k : Kernel S Data) (processes : List ℕ) (slot addr : ℕ)
      → length processes ≡ max_processes
      → slot < max_processes
      → (process_get (record k { processes = set processes slot addr }) (pos slot) ≡ ok addr)
        × ((pid : ℤ)
            → pid ≢ pos slot
            → process_get (record k { processes = set processes slot addr }) pid
              ≡ process_get (record k { processes = processes }) pid)
  unfolding process_get
  process_get-set k processes slot addr e lt =
      (ground (arith, get_or-set_self processes slot addr 0 (omega arith)), others)
    where
      others :
          (pid : ℤ)
          → pid ≢ pos slot
          → process_get (record k { processes = set processes slot addr }) pid
            ≡ process_get (record k { processes = processes }) pid
      others (pos n) ne =
          ap (λ addr. if ltb n max_processes then ok addr else err einvarg)
            (get_or-set_ne processes slot n addr 0 (λ e. ne (ap pos (sym e))))
      others (negsuc n) ne = refl

-- A process that can run: its name, its program and its stack are what was loaded, its task enters the
-- program with the chunk, in which the program and the stack are where the program expects them.
pub record IsReady {S Data : Type 0} (k : Kernel S Data) (addr : ℕ) (filename : List ℕ)
    (program : Program) (stack task : ℕ) (chunk : PagingChunk) : Type 0 where
  pub name_at :
      (k.process addr).filename ≡ filename ++ drop (length filename) (replicate max_path_size 0)
  pub program_at : (k.process addr).program ≡ program
  pub stack_at : (k.process addr).stack ≡ stack
  pub task_at : (k.process addr).task ≡ task
  pub process_at : (k.tasks.node task).process ≡ addr
  pub registers_at : (k.tasks.node task).registers ≡ first_registers
  pub chunk_at : (k.tasks.node task).chunk ≡ chunk.ptr
  pub chunk-IsValid : IsValid k.mem chunk.directory
  pub program_mapped : Loaded k.mem chunk.directory program
  pub stack_mapped : Maps k.mem chunk.directory stack_end stack stack_size

module _ {S Data : Type 0} (malloc : S → ℕ → Option (ℕ × S)) (free : S → ℕ → Option S)
    (fs : NuttleFs S Data) where
  -- A table of 16 slots, one of them free; a name of at most 128 characters that elf_load loads as an ELF
  -- program; memory for the process, the stack, the task and its chunk, none of it at the null pointer,
  -- where the chunk is valid and holds its directory, and the task is not in the list yet; segments that
  -- lie apart from each other and from the stack, whole pages in virtual and in physical memory and less
  -- than 2 GB each, off the first page and the end of the address space, and a stack in pages that do not reach the end either.
  -- Then process_load answers the process and it is ready: its task, the last of the list, enters the
  -- program with the chunk, in which the pages of the segments and of the stack are translated to their
  -- memory, and the chunk is valid. The first free slot names the process, every other number what it
  -- named.
  pub process_load-IsReady :
      (k : Kernel S Data) (filename stale : List ℕ) (slot addr stack task : ℕ) (s1 s3 s4 s5 : S)
      (file : ElfFile) (files : Files S Data) (chunk : PagingChunk) (mem : Memory) (xs : List ℕ)
      → length k.processes ≡ max_processes
      → free_process_slot k.processes 0 ≡ ok slot
      → malloc k.files.heap 10404 ≡ some (addr, s1)
      → addr ≢ 0
      → length filename ≤ max_path_size
      → elf_load malloc free fs (record (k.files) { heap = s1 }) filename stale
        ≡ some (ok file, files)
      → malloc files.heap stack_size ≡ some (stack, s3)
      → stack ≢ 0
      → malloc s3 80 ≡ some (task, s4)
      → task ≢ 0
      → new_4gb_chunk malloc free s4 k.mem 3 ≡ some (chunk, mem, s5)
      → chunk.ptr ≢ 0
      → mem chunk.ptr ≡ chunk.directory
      → IsValid mem chunk.directory
      → Listed k.tasks xs
      → All (λ x. x ≢ task) xs
      → Fits (elf file)
      → Leaves (elf file) stack_end stack_size
      → stack % paging_size ≡ 0
      → stack + stack_size + paging_size ≤ 2 ^ 32
      → (k' : Kernel S Data) × (process_load malloc free fs k filename stale ≡ some (ok addr, k'))
        × IsReady k' addr filename (elf file) stack task chunk
        × Listed k'.tasks (xs ++ (task ∷ []))
        × (process_get k' (pos slot) ≡ ok addr)
        × ((pid : ℤ) → pid ≢ pos slot → process_get k' pid ≡ process_get k pid)
  unfolding process_load write_process process_get
  process_load-IsReady k filename stale slot addr stack task s1 s3 s4 s5 file files chunk mem xs
        room first gives some_addr fits loads gives_stack some_stack gives_task some_task made
        some_chunk word valid listed fresh program_fits leaves aligned le =
      let k1 : Kernel S Data = write_process (with_heap k s1) addr no_process in
      let e1 : k1.process addr ≡ no_process = write_process_same (with_heap k s1) addr no_process in
      let p2 : NuttleProcess = record (k1.process addr) {
        filename = filename ++ drop (length filename) (k1.process addr).filename;
        program = elf file;
      } in
      let k2 : Kernel S Data = write_process (record k1 { files = files }) addr p2 in
      let e2 : k2.process addr ≡ p2 = write_process_same (record k1 { files = files }) addr p2 in
      let p3 : NuttleProcess = record (k2.process addr) { stack = stack } in
      let k3 : Kernel S Data = write_process (with_heap k2 s3) addr p3 in
      let e3 : k3.process addr ≡ p3 = write_process_same (with_heap k2 s3) addr p3 in
      let (tasks, new, listed', process_at, chunk_at, registers_at, current_at, released_at) =
        task_new-Listed k.tasks addr task chunk.ptr xs listed some_task some_chunk fresh in
      let k4 : Kernel S Data = record (with_heap k3 s5) { mem = mem; tasks = tasks } in
      let (mem', mapping, valid', program_mapped, stack_mapped, others) =
        map_memory_lem (elf file) mem chunk.directory stack valid program_fits leaves aligned le in
      let k5 : Kernel S Data = mapped malloc free fs k4 addr task mem' in
      let e5 =
        write_process_same (record k4 { mem = mem' }) addr
          (record (k4.process addr) { task = task }) in
      let (slot', at, slot_in, open_slot, taken) = free_process_slot_lem k.processes 0 slot first in
      let lt : slot < max_processes = omega (arith, at, slot_in, room) in
      let k6 : Kernel S Data = finished malloc free fs k5 addr slot in
      let e6 =
        write_process_same k5 addr
          (record (k5.process addr) { buffer = init_buffer (k5.process addr).buffer }) in
      let program_at : (k4.process addr).program ≡ elf file =
        ap (λ p. p.program) e3 ∙ ap (λ p. p.program) e2 in
      let stack_at : (k4.process addr).stack ≡ stack = ap (λ p. p.stack) e3 in
      let mapping' : map_memory mem (mem (tasks.node task).chunk) (k4.process addr).program
            (k4.process addr).stack
          ≡ (all_ok, mem') =
        ap₂ (λ directory p. map_memory mem directory p (k4.process addr).stack)
          (ap mem chunk_at ∙ word) program_at
        ∙ ap (map_memory mem chunk.directory (elf file)) stack_at
        ∙ mapping in
      let named : length filename ≤ length (k1.process addr).filename =
        omega
          (arith, fits, ap (λ p. length p.filename) e1, length-replicate {A = ℕ} max_path_size 0) in
      let filled = fill_data-elf malloc free fs k1 addr filename stale file files loads named in
      let created =
        create_task_lem malloc free fs k3 addr task s4 s5 chunk mem (ok task) tasks gives_task
          some_task made new in
      let placed =
        map_process_lem malloc free fs k4 addr slot task mem' mapping' (omega (arith, lt, room)) in
      let stacked =
        add_stack_lem malloc free fs k2 k6 addr slot stack s3 gives_stack some_stack
          (ap (λ m. m >>= map_process malloc free fs addr slot) created ∙ placed) in
      let (now, before) = process_get-set k6 k.processes slot addr room lt in
      (
        k6,
        ap (load_free_slot malloc free fs k filename stale) first
            ∙ load_to_slot_lem malloc free fs k k2 k6 filename stale slot addr s1 gives some_addr
                filled stacked,
        record {
          name_at =
              ap (λ p. p.filename) e6
              ∙ ap (λ p. p.filename) e5
              ∙ ap (λ p. p.filename) e3
              ∙ ap (λ p. p.filename) e2
              ∙ ap (λ p. filename ++ drop (length filename) p.filename) e1;
          program_at = ap (λ p. p.program) e6 ∙ ap (λ p. p.program) e5 ∙ program_at;
          stack_at = ap (λ p. p.stack) e6 ∙ ap (λ p. p.stack) e5 ∙ stack_at;
          task_at = ap (λ p. p.task) e6 ∙ ap (λ p. p.task) e5;
          process_at = process_at;
          registers_at = registers_at;
          chunk_at = chunk_at;
          chunk-IsValid = valid';
          program_mapped = program_mapped;
          stack_mapped = stack_mapped;
        },
        listed',
        now,
        before,
      )
