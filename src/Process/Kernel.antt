-- ===== src/Process/Kernel.antt =====
-- The processes of src/kernel/task/process.c in memory, and their release. A process is its address, and
-- the processes in memory are a function from addresses. Each block of the heap is held by the part that
-- uses it: `mem` has the words of the paging code. `none` is a fault.
use asif_os.Prelude.{
  ℕ, ◌+◌, Option, some, List, [], ◌∷◌, replicate, ◌==◌, if◌then◌else◌, ◌>>=◌, get_or, ltb,
}
use asif_os.Prelude.Int.{ℤ, pos, negsuc}
use asif_os.Kern.Status.{einvarg, enomem, Code, ok, err}
use asif_os.Keyboard.{KeyboardBuffer, max_buffer}
use asif_os.Paging.{Memory}
use asif_os.Paging.Chunk.{new_4gb_chunk, free_4gb_chunk}
use asif_os.Pparser.{max_path_size}
use asif_os.Fs.Calls.{Files}
use asif_os.Task.{Tasks, Release, release_chunk, release_block, task_new, task_free}
use asif_os.Process.Map.{Program, binary, elf}

-- NUTTLE_MAX_USER_ALLOCATIONS and NUTTLE_MAX_PROCESSES
abbrev pub max_allocations : ℕ
max_allocations = 1024

abbrev pub max_processes : ℕ
max_processes = 16

-- `NuttleProcess`, without its number, which nothing sets. A null pointer is 0.
pub record NuttleProcess : Type 0 where
  pub filename : List ℕ
  pub task : ℕ
  pub allocations : List (ℕ × ℕ)
  pub program : Program
  pub stack : ℕ
  pub buffer : KeyboardBuffer

-- The block that `zmallock` clears.
abbrev pub no_process : NuttleProcess
no_process = record {
  filename = replicate max_path_size 0;
  task = 0;
  allocations = replicate max_allocations (0, 0);
  program = binary 0 0 [];
  stack = 0;
  buffer = record { head = 0; tail = 0; size = 0; buffer = replicate max_buffer 0 };
}

-- `ptr`
abbrev pub program_block : Program → ℕ
program_block (binary ptr size bytes) = ptr
program_block (elf file) = file.ptr

-- The kernel: its files with the heap, the words of the page tables, the tasks, the processes in
-- memory, and `processes` and `current`.
pub record Kernel (S Data : Type 0) : Type 0 where
  pub files : Files S Data
  pub mem : Memory
  pub tasks : Tasks
  pub process : ℕ → NuttleProcess
  pub processes : List ℕ
  pub current : ℕ

unfoldable pub write_process : {S Data : Type 0} → Kernel S Data → ℕ → NuttleProcess → Kernel S Data
write_process k addr process = record k {
  process = λ at. if at == addr then process else k.process at;
}

abbrev pub with_heap : {S Data : Type 0} → Kernel S Data → S → Kernel S Data
with_heap k s = record k { files = record (k.files) { heap = s } }

-- The loop of `process_get_free_slot` from the slot `i` on.
unfoldable pub free_process_slot : List ℕ → (i : ℕ) → Code ℕ
free_process_slot [] i = err enomem
free_process_slot (process ∷ processes) i =
    let rest = free_process_slot processes (i + 1) in if process == 0 then ok i else rest

-- `process_get`
unfoldable pub process_get : {S Data : Type 0} → Kernel S Data → ℤ → Code ℕ
process_get k (pos pid) =
    if ltb pid max_processes then ok (get_or k.processes pid 0) else err einvarg
process_get k (negsuc pid) = err einvarg

module _ {S : Type 0} (malloc : S → ℕ → Option (ℕ × S)) (free : S → ℕ → Option S) where
  -- What `task_free` gives back, the oldest first.
  unfoldable pub release_all : S → Memory → List Release → Option S
  release_all s mem [] = some s
  release_all s mem (release_block block ∷ released) =
      release_all s mem released >>= λ s'. free s' block
  release_all s mem (release_chunk chunk ∷ released) = release_all s mem released >>= λ s'.
      free_4gb_chunk malloc free s' mem (record { ptr = chunk; directory = mem chunk })

module _ {S Data : Type 0} (malloc : S → ℕ → Option (ℕ × S)) (free : S → ℕ → Option S) where
  -- `task_free` with what it gives back.
  unfoldable pub drop_task : Kernel S Data → ℕ → Option (Kernel S Data)
  unfolding release_all
  drop_task k task =
      let tasks = task_free (record (k.tasks) { released = [] }) task in
      release_all malloc free k.files.heap k.mem tasks.released >>= λ s.
      some (record (with_heap k s) { tasks = record tasks { released = [] } })

  abbrev pub free_some : Kernel S Data → ℕ → Option (Kernel S Data)
  free_some k block =
      let freed = free k.files.heap block >>= λ s. some (with_heap k s) in
      if block == 0 then some k else freed

  -- `process_free`. The slot of the process keeps its address.
  unfoldable pub process_free : Kernel S Data → ℕ → Option (Kernel S Data)
  unfolding drop_task
  process_free k addr =
      let process = k.process addr in
      let freed = (if process.task == 0 then some k else drop_task k process.task) >>= λ k'.
      free_some k' process.stack >>= λ k''.
      free_some k'' (program_block process.program) >>= λ last. free_some last addr in
      if addr == 0 then some k else freed

  -- `task_new` with the allocations of its task, of 80 bytes, and of its chunk, of which an error is
  -- a null pointer.
  unfoldable pub create_task : Kernel S Data → (process : ℕ) → Option (Code ℕ × Kernel S Data)
  create_task k process = malloc k.files.heap 80 >>= λ (task, s).
      let create = new_4gb_chunk malloc free s k.mem 3 >>= λ (chunk, mem, s').
      let (res, tasks) = task_new k.tasks process task chunk.ptr in
      some (res, record (with_heap k s') { mem = mem; tasks = tasks }) in
      if task == 0 then some (err enomem, with_heap k s) else create
