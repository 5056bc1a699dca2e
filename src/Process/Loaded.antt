-- ===== src/Process/Loaded.antt =====
-- A program that src/kernel/task/process.c has loaded.
use asif_os.Prelude.{
  ℕ, zero, suc, ◌+◌, ◌≤◌, ◌<◌, ◌≡◌, ◌≢◌, sym, ap, ◌∙◌, arith, Option, some, List, [], ◌∷◌, ◌++◌,
  length, ◌>>=◌, ◌==◌, if◌then◌else◌, pick_else, pick_then, drop, get_or, set, store-set,
  ℕ_discrete,
}
use asif_os.Kern.Status.{all_ok, enomem, Code, ok, err}
use asif_os.Kern.Str.Compare.{strcpyk_eq}
use asif_os.Keyboard.{init_buffer}
use asif_os.Paging.{Memory}
use asif_os.Paging.Chunk.{PagingChunk, new_4gb_chunk}
use asif_os.Fs.{NuttleFs}
use asif_os.Fs.Calls.{Files}
use asif_os.Elf.{ElfFile}
use asif_os.Elf.Load.{elf_load}
use asif_os.Task.{Tasks, task_new}
use asif_os.Process.Map.{elf, map_memory, stack_size}
use asif_os.Process.Kernel.{
  NuttleProcess, Kernel, no_process, write_process, with_heap, free_process_slot, create_task,
}
use asif_os.Process.Load.{
  fill_data, name_process, try_binary, map_process, finish_load, add_stack, load_to_slot,
}

taken_before :
    (processes : List ℕ) (process n : ℕ)
    → process ≢ 0
    → ((m : ℕ) → m < n → get_or processes m 0 ≢ 0)
    → (m : ℕ) → m < suc n
    → get_or (process ∷ processes) m 0 ≢ 0
taken_before processes process n taken before zero lt = taken
taken_before processes process n taken before (suc m) lt = before m (omega arith)

ok_inj : {a b : ℕ} → ok a ≡ ok b → a ≡ b
ok_inj e = cc

-- The first free slot is in the table, and free.
pub free_process_slot_lem :
    (processes : List ℕ) (i slot : ℕ)
    → free_process_slot processes i ≡ ok slot
    → (n : ℕ) × (slot ≡ i + n)
      × (n < length processes)
      × (get_or processes n 0 ≡ 0)
      × ((m : ℕ) → m < n → get_or processes m 0 ≢ 0)
unfolding free_process_slot
free_process_slot_lem [] i slot e = cc
free_process_slot_lem (process ∷ processes) i slot e = elim (ℕ_discrete process 0) [
  | yes free ↦ (
    0,
    omega (arith, ok_inj (sym e ∙ pick_then free _ _)),
    omega arith,
    free,
    λ m lt. absurd (omega arith),
  )
  | no taken ↦
      let (n, at, lt, here, before) =
        free_process_slot_lem processes (i + 1) slot (sym (pick_else taken _ _) ∙ e) in
      (suc n, omega (arith, at), omega arith, here, taken_before processes process n taken before)
]

module _ {S Data : Type 0} where
  pub write_process_same :
      (k : Kernel S Data) (addr : ℕ) (p : NuttleProcess) → (write_process k addr p).process addr ≡ p
  unfolding write_process
  write_process_same k addr p = ground arith

module _ {S Data : Type 0} (malloc : S → ℕ → Option (ℕ × S)) (free : S → ℕ → Option S)
    (fs : NuttleFs S Data) where
  pub fill_data-elf :
      (k : Kernel S Data) (addr : ℕ) (filename stale : List ℕ) (file : ElfFile)
      (files : Files S Data)
      → elf_load malloc free fs k.files filename stale ≡ some (ok file, files)
      → length filename ≤ length (k.process addr).filename
      → fill_data malloc free fs k addr filename stale
        ≡ some (
          all_ok,
          write_process
              (record k { files = files })
              addr
              (record (k.process addr) {
                filename = filename ++ drop (length filename) (k.process addr).filename;
                program = elf file;
              }),
        )
  unfolding fill_data
  fill_data-elf k addr filename stale file files loads fits =
      ap
        (λ m.
          m >>= try_binary malloc free fs filename >>= name_process malloc free fs k addr filename)
        loads
      ∙ ap
          (λ m. m >>= λ name. some (
            all_ok,
            write_process (record k { files = files }) addr
                (record (k.process addr) { filename = name; program = elf file }),
          ))
          (strcpyk_eq (k.process addr).filename filename fits)

  pub create_task_lem :
      (k : Kernel S Data) (process task : ℕ) (s s' : S) (chunk : PagingChunk) (mem : Memory)
      (res : Code ℕ) (tasks : Tasks)
      → malloc k.files.heap 80 ≡ some (task, s)
      → task ≢ 0
      → new_4gb_chunk malloc free s k.mem 3 ≡ some (chunk, mem, s')
      → task_new k.tasks process task chunk.ptr ≡ (res, tasks)
      → create_task malloc free k process
        ≡ some (res, record (with_heap k s') { mem = mem; tasks = tasks })
  unfolding create_task
  create_task_lem k process task s s' chunk mem res tasks gives some_task made new =
      ap
        (λ m. m >>= λ (task, s).
          let create = new_4gb_chunk malloc free s k.mem 3 >>= λ (chunk, mem, s').
          let (res, tasks) = task_new k.tasks process task chunk.ptr in
          some (res, record (with_heap k s') { mem = mem; tasks = tasks }) in
          if task == 0 then some (err enomem, with_heap k s) else create)
        gives
      ∙ pick_else some_task _ _
      ∙ ap
          (λ m. m >>= λ (chunk, mem, s').
            let (res, tasks) = task_new k.tasks process task chunk.ptr in
            some (res, record (with_heap k s') { mem = mem; tasks = tasks }))
          made
      ∙ ap (λ new. some (new.0, record (with_heap k s') { mem = mem; tasks = new.1 })) new

  -- The kernel behind the mapping of a process, and behind the end of the loading.
  abbrev pub mapped : Kernel S Data → (addr task : ℕ) → Memory → Kernel S Data
  mapped k addr task mem =
      write_process (record k { mem = mem }) addr (record (k.process addr) { task = task })

  abbrev pub finished : Kernel S Data → (addr slot : ℕ) → Kernel S Data
  finished k addr slot =
      record (write_process k addr
        (record (k.process addr) { buffer = init_buffer (k.process addr).buffer })) {
          processes = set k.processes slot addr;
        }

  pub map_process_lem :
      (k : Kernel S Data) (addr slot task : ℕ) (mem : Memory)
      → map_memory k.mem
          (k.mem (k.tasks.node task).chunk)
          (k.process addr).program
          (k.process addr).stack
        ≡ (all_ok, mem)
      → slot < length k.processes
      → map_process malloc free fs addr slot (ok task, k)
        ≡ some (ok addr, finished (mapped k addr task mem) addr slot)
  unfolding write_process
  map_process_lem k addr slot task mem done lt =
      ap (λ run. finish_load malloc free fs (mapped k addr task run.1) addr slot run.0) done
      ∙ ap
          (λ m. m >>= λ processes. some (
            ok addr,
            record (finished (mapped k addr task mem) addr slot) { processes = processes },
          ))
          (store-set k.processes slot addr lt)

  pub add_stack_lem :
      (k k' : Kernel S Data) (addr slot stack : ℕ) (s : S)
      → malloc k.files.heap stack_size ≡ some (stack, s)
      → stack ≢ 0
      → (create_task malloc free
            (write_process (with_heap k s) addr (record (k.process addr) { stack = stack }))
            addr
          >>= map_process malloc free fs addr slot)
        ≡ some (ok addr, k')
      → add_stack malloc free fs addr slot (all_ok, k) ≡ some (ok addr, k')
  add_stack_lem k k' addr slot stack s gives some_stack rest =
      rw gives (pick_else some_stack _ _ ∙ rest)

  pub load_to_slot_lem :
      (k k1 k2 : Kernel S Data) (filename stale : List ℕ) (slot addr : ℕ) (s : S)
      → malloc k.files.heap 10404 ≡ some (addr, s)
      → addr ≢ 0
      → fill_data malloc free fs (write_process (with_heap k s) addr no_process) addr filename stale
        ≡ some (all_ok, k1)
      → add_stack malloc free fs addr slot (all_ok, k1) ≡ some (ok addr, k2)
      → load_to_slot malloc free fs k filename stale slot ≡ some (ok addr, k2)
  unfolding load_to_slot
  load_to_slot_lem k k1 k2 filename stale slot addr s gives some_process filled stacked =
      ap
        (λ m. m >>= λ (addr, s).
          let rest =
            fill_data malloc free fs (write_process (with_heap k s) addr no_process) addr filename
              stale
            >>= add_stack malloc free fs addr slot in
          if addr == 0 then some (err enomem, with_heap k s) else rest)
        gives
      ∙ pick_else some_process _ _
      ∙ ap (λ m. m >>= add_stack malloc free fs addr slot) filled
      ∙ stacked
