-- ===== src/Process/Load.antt =====
-- How src/kernel/task/process.c loads a program into a process, over the calls on files, the ELF loader,
-- the tasks and the page tables. `none` is a fault.
use asif_os.Prelude.{ℕ, Option, none, some, List, [], ◌∷◌, ◌==◌, if◌then◌else◌, ◌>>=◌, store}
use asif_os.Prelude.Int.{ℤ, pos, negsuc}
use asif_os.Kern.Status.{Status, all_ok, eio, enomem, is_err, Code, ok, err}
use asif_os.Kern.Str.{strcpyk}
use asif_os.Keyboard.{init_buffer}
use asif_os.Fat16.Position.{FileStat}
use asif_os.Fs.{NuttleFs}
use asif_os.Fs.Table.{is_valid}
use asif_os.Fs.Calls.{Files, file_open, file_read, file_stat, file_close}
use asif_os.Elf.{ElfFile}
use asif_os.Elf.Load.{fetch_mode, elf_load}
use asif_os.Task.{task_switch}
use asif_os.Process.Map.{Program, binary, elf, map_memory, stack_size}
use asif_os.Process.Kernel.{
  NuttleProcess, Kernel, no_process, write_process, with_heap, free_process_slot, process_free,
  create_task,
}

module _ {S Data : Type 0} (malloc : S → ℕ → Option (ℕ × S)) (free : S → ℕ → Option S) where
  module _ (fs : NuttleFs S Data) where
    -- The end of `process_load_binary`: the status of `fclosek` is not looked at.
    abbrev pub leave_binary : Files S Data → ℤ → Code Program → Option (Code Program × Files S Data)
    leave_binary files file res =
        file_close malloc free fs files file >>= λ (_, files'). some (res, files')

    -- `process_load_binary` behind `freadk`.
    abbrev pub binary_read :
        (bin size fd : ℕ) → Code ℕ × List ℕ × Files S Data → Option (Code Program × Files S Data)
    binary_read bin size fd (err res, bytes, files) = leave_binary files (pos fd) (err eio)
    binary_read bin size fd (ok n, bytes, files) =
        let failed = leave_binary files (pos fd) (err eio) in
        let read = leave_binary files (pos fd) (ok (binary bin size bytes)) in
        if size == n then read else failed

    -- `process_load_binary` behind `file_stat`; a record it has not filled is a fault.
    abbrev pub binary_stat :
        Files S Data → (fd : ℕ) → Status × Option FileStat → Option (Code Program × Files S Data)
    binary_stat files fd (res, none) = none
    binary_stat files fd (res, some stat) = malloc files.heap stat.size >>= λ (bin, s).
        let files' : Files S Data = record files { heap = s } in
        let failed = leave_binary files' (pos fd) (err enomem) in
        let read =
          file_read malloc free fs files' 1 stat.size (pos fd) >>= binary_read bin stat.size fd in
        if bin == 0 then failed else read

    -- `process_load_binary` behind `fopenk`; an error is a negative number, and it is closed too.
    abbrev pub binary_opened : Code ℕ × Files S Data → Option (Code Program × Files S Data)
    binary_opened (err res, files) = leave_binary files (negsuc 0) (err eio)
    binary_opened (ok fd, files) =
        let stat = file_stat malloc free fs files (pos fd) 1 >>= binary_stat files fd in
        let failed = leave_binary files (pos fd) (err eio) in
        if is_valid (pos fd) then stat else failed

    -- `process_load_binary`
    unfoldable pub load_binary :
        Files S Data → (filename : List ℕ) → Option (Code Program × Files S Data)
    load_binary files filename =
        file_open malloc free (some fs) files filename (fetch_mode (0x72 ∷ [])) >>= binary_opened

    -- `process_fill_data` behind `process_load_elf`; the latter is `elf_load` with its file.
    abbrev pub try_binary :
        (filename : List ℕ) → Code ElfFile × Files S Data → Option (Code Program × Files S Data)
    try_binary filename (ok file, files) = some (ok (elf file), files)
    try_binary filename (err res, files) = load_binary files filename

    -- The name of a loaded process.
    abbrev pub name_process :
        Kernel S Data
        → (addr : ℕ) → (filename : List ℕ) → Code Program × Files S Data
        → Option (Status × Kernel S Data)
    name_process k addr filename (err res, files) = some (res, record k { files = files })
    name_process k addr filename (ok program, files) =
        strcpyk (k.process addr).filename filename >>= λ name. some (
          all_ok,
          write_process (record k { files = files }) addr
              (record (k.process addr) { filename = name; program = program }),
        )

    -- `process_fill_data`; `stale` is what the block for an ELF file holds before.
    unfoldable pub fill_data :
        Kernel S Data → (addr : ℕ) → (filename stale : List ℕ) → Option (Status × Kernel S Data)
    unfolding load_binary
    fill_data k addr filename stale =
        elf_load malloc free fs k.files filename stale
        >>= try_binary filename
        >>= name_process k addr filename

    -- An error of `process_load_to_slot`, at `out`.
    abbrev pub fail_process : Kernel S Data → (addr : ℕ) → Status → Option (Code ℕ × Kernel S Data)
    fail_process k addr res = process_free malloc free k addr >>= λ k'. some (err res, k')

    -- `process_load_to_slot` behind `process_map_memory`. After an error of the mapping nothing is freed.
    abbrev pub finish_load :
        Kernel S Data → (addr slot : ℕ) → Status → Option (Code ℕ × Kernel S Data)
    finish_load k addr slot res =
        let process = k.process addr in
        let ready = write_process k addr (record process { buffer = init_buffer process.buffer }) in
        let done = store k.processes slot addr >>= λ processes.
        some (ok addr, record ready { processes = processes }) in
        if is_err res then some (err res, k) else done

    -- `process_load_to_slot` behind `task_new`. ISERRP does not hold of an error that `task_new` answers, and
    -- the number of the error is used as a pointer.
    abbrev pub map_process :
        (addr slot : ℕ) → Code ℕ × Kernel S Data → Option (Code ℕ × Kernel S Data)
    map_process addr slot (err res, k) = none
    map_process addr slot (ok task, k) =
        let process : NuttleProcess = record (k.process addr) { task = task } in
        let directory = k.mem (k.tasks.node task).chunk in
        let (res, mem) = map_memory k.mem directory process.program process.stack in
        finish_load (write_process (record k { mem = mem }) addr process) addr slot res

    -- `process_load_to_slot` behind `process_fill_data`.
    abbrev pub add_stack :
        (addr slot : ℕ) → Status × Kernel S Data → Option (Code ℕ × Kernel S Data)
    add_stack addr slot (res, k) =
        let failed = fail_process k addr res in
        let stacked = malloc k.files.heap stack_size >>= λ (stack, s).
        let k' = write_process (with_heap k s) addr (record (k.process addr) { stack = stack }) in
        let no_stack = fail_process k' addr enomem in
        let rest = create_task malloc free k' addr >>= map_process addr slot in
        if stack == 0 then no_stack else rest in
        if is_err res then failed else stacked

    -- `process_load_to_slot`, with the process that it stores. `sizeof(NuttleProcess)` is 10404.
    unfoldable pub load_to_slot :
        Kernel S Data → (filename stale : List ℕ) → (slot : ℕ) → Option (Code ℕ × Kernel S Data)
    unfolding fill_data create_task process_free
    load_to_slot k filename stale slot = malloc k.files.heap 10404 >>= λ (addr, s).
        let rest =
          fill_data (write_process (with_heap k s) addr no_process) addr filename stale
          >>= add_stack addr slot in
        if addr == 0 then some (err enomem, with_heap k s) else rest

    -- `process_load`
    abbrev pub load_free_slot :
        Kernel S Data → (filename stale : List ℕ) → Code ℕ → Option (Code ℕ × Kernel S Data)
    load_free_slot k filename stale (err res) = some (err enomem, k)
    load_free_slot k filename stale (ok slot) = load_to_slot k filename stale slot

    unfoldable pub process_load :
        Kernel S Data → (filename stale : List ℕ) → Option (Code ℕ × Kernel S Data)
    unfolding load_to_slot free_process_slot
    process_load k filename stale =
        load_free_slot k filename stale (free_process_slot k.processes 0)

-- `process_switch`: the chunk that paging switches to.
unfoldable pub process_switch : {S Data : Type 0} → Kernel S Data → (addr : ℕ) → ℕ × Kernel S Data
process_switch k addr =
    let (chunk, tasks) = task_switch k.tasks (k.process addr).task in
    (chunk, record k { tasks = tasks; current = addr })

module _ {S Data : Type 0} (malloc : S → ℕ → Option (ℕ × S)) (free : S → ℕ → Option S)
    (fs : NuttleFs S Data) where
  abbrev pub switch_loaded : Code ℕ × Kernel S Data → Code ℕ × Kernel S Data
  switch_loaded (err res, k) = (err res, k)
  switch_loaded (ok addr, k) = (ok addr, (process_switch k addr).1)

  -- `process_load_and_switch`
  unfoldable pub load_and_switch :
      Kernel S Data → (filename stale : List ℕ) → Option (Code ℕ × Kernel S Data)
  unfolding process_load process_switch
  load_and_switch k filename stale =
      process_load malloc free fs k filename stale >>= λ run. some (switch_loaded run)
