-- ===== src/Task.antt =====
-- src/kernel/task/task.c: the doubly linked list of tasks and the choice of the current one. A task is
-- its address, 0 is the null pointer, and the tasks in memory are a function from addresses. The
-- addresses that `mallock` and `paging_get_new_4gb_chunk` answer are arguments of `task_new`; what is
-- given back to the heap is recorded in order, the newest first.
pub mod Chain
pub mod Listed
pub mod Order
pub mod Tss
use asif_os.Prelude.{
  ℕ, zero, suc, ◌+◌, ◌-◌, ◌*◌, bit_or, Option, none, some, List, [], ◌∷◌, ◌==◌, if◌then◌else◌,
}
use asif_os.Kern.Status.{Status, all_ok, enomem, enotask, Code, ok, err}

-- The constants of config.h.
abbrev pub user_program : ℕ
user_program = 0x400000

abbrev pub user_stack : ℕ
user_stack = 0x3ff000

abbrev pub user_code_selector : ℕ
user_code_selector = 0x18

abbrev pub user_data_selector : ℕ
user_data_selector = 0x20

-- The first eight fields of `TaskRegisters`, which are those of `NuttleInterruptFrame` too.
pub record GeneralRegisters : Type 0 where
  pub edi : ℕ
  pub esi : ℕ
  pub ebp : ℕ
  pub esp : ℕ
  pub ebx : ℕ
  pub edx : ℕ
  pub ecx : ℕ
  pub eax : ℕ

-- `TaskRegisters`
pub record TaskRegisters : Type 0 where
  pub general : GeneralRegisters
  pub eflags : ℕ
  pub eip : ℕ
  pub cs : ℕ
  pub ds : ℕ
  pub fs : ℕ
  pub gs : ℕ
  pub ss : ℕ
  pub es : ℕ

-- `NuttleTask`
pub record Task : Type 0 where
  pub chunk : ℕ
  pub registers : TaskRegisters
  pub process : ℕ
  pub prev : ℕ
  pub next : ℕ

abbrev pub Nodes : Type 0
Nodes = ℕ → Task

-- What goes back to the heap: a paging chunk with its tables, or one block.
pub data Release : Type 0 where
  release_chunk : ℕ → Release
  release_block : ℕ → Release

-- `current`, `head` and `tail`, the tasks in memory, and the releases.
pub record Tasks : Type 0 where
  pub node : Nodes
  pub head : ℕ
  pub tail : ℕ
  pub current : ℕ
  pub released : List Release

unfoldable pub write_task : Nodes → ℕ → Task → Nodes
write_task node task t at = if at == task then t else node at

abbrev pub set_next : Nodes → ℕ → ℕ → Nodes
set_next node task next = write_task node task (record (node task) { next = next })

abbrev pub set_prev : Nodes → ℕ → ℕ → Nodes
set_prev node task prev = write_task node task (record (node task) { prev = prev })

-- The registers that `task_init` sets; the others are 0.
abbrev pub first_registers : TaskRegisters
first_registers =
    let ds : ℕ = bit_or user_data_selector 3 in
    record {
      general = record {
        edi = 0;
        esi = 0;
        ebp = 0;
        esp = user_stack;
        ebx = 0;
        edx = 0;
        ecx = 0;
        eax = 0;
      };
      eflags = 0;
      eip = user_program;
      cs = bit_or user_code_selector 3;
      ds = ds;
      fs = ds;
      gs = ds;
      ss = ds;
      es = ds;
    }

abbrev pub no_registers : TaskRegisters
no_registers = record {
  general = record { edi = 0; esi = 0; ebp = 0; esp = 0; ebx = 0; edx = 0; ecx = 0; eax = 0 };
  eflags = 0;
  eip = 0;
  cs = 0;
  ds = 0;
  fs = 0;
  gs = 0;
  ss = 0;
  es = 0;
}

-- `task_init` of the task that `memsetk` clears, with the chunk that the paging code answers.
unfoldable pub task_init : ℕ → ℕ → Status × Task
task_init process chunk =
    if chunk == 0
    then (enomem, record { chunk = 0; registers = no_registers; process = 0; prev = 0; next = 0 })
    else (
      all_ok,
      record { chunk = chunk; registers = first_registers; process = process; prev = 0; next = 0 },
    )

-- The first two statements of `task_list_remove`, one after the other.
unfoldable pub unlink_next : Nodes → ℕ → Nodes
unlink_next node task =
    if (node task).prev == 0 then node else set_next node (node task).prev (node task).next

unfoldable pub unlink_prev : Nodes → ℕ → Nodes
unlink_prev node task =
    if (node task).next == 0 then node else set_prev node (node task).next (node task).prev

-- `task_list_remove`
unfoldable pub task_list_remove : Tasks → ℕ → Tasks
task_list_remove s task =
    let node = unlink_prev (unlink_next s.node task) task in
    let next = (node task).next in
    let head = if s.head == task then next else s.head in
    record s {
      node = node;
      head = head;
      tail = if s.tail == task then (node task).prev else s.tail;
      current = if s.current == task then (if next == 0 then head else next) else s.current;
    }

abbrev pub release_task_chunk : ℕ → List Release → List Release
release_task_chunk chunk released = if chunk == 0 then released else release_chunk chunk ∷ released

-- `task_free`
unfoldable pub task_free : Tasks → ℕ → Tasks
unfolding task_list_remove
task_free s task =
    if task == 0
    then s
    else (let removed = task_list_remove s task in
        record removed {
          released = release_block task ∷ release_task_chunk (s.node task).chunk s.released;
        })

-- `task_new` behind `task_init`, which has written the task.
unfoldable pub task_insert : Tasks → ℕ → Tasks
task_insert s task = if s.head == 0 then record s { head = task; tail = task } else record s {
  node = set_next (write_task s.node task (record (s.node task) { prev = s.tail })) s.tail task;
  tail = task;
}

-- `task_new` behind its allocation.
pub task_new_at : Tasks → ℕ → Status × Task → Code ℕ × Tasks
unfolding task_free task_insert
task_new_at s task (all_ok, t) =
    (ok task, task_insert (record s { node = write_task s.node task t }) task)
task_new_at s task (res, t) =
    (err res, task_free (record s { node = write_task s.node task t }) task)

-- `task_new`: the addresses of the task and of its chunk, 0 where there is no memory.
unfoldable pub task_new : Tasks → (process task chunk : ℕ) → Code ℕ × Tasks
unfolding task_new_at task_init
task_new s process task chunk =
    if task == 0 then (err enomem, s) else task_new_at s task (task_init process chunk)

-- `task_switch`: the new current task, and the chunk that paging switches to.
unfoldable pub task_switch : Tasks → ℕ → ℕ × Tasks
task_switch s task = ((s.node task).chunk, record s { current = task })

-- `task_store_frame`; without a current task the kernel panics (`none`).
unfoldable pub task_store_frame : Tasks → GeneralRegisters → Option Tasks
task_store_frame s regs =
    if s.current == 0
    then none
    else (let t = s.node s.current in
        some (record s {
          node =
              write_task s.node s.current
                (record t { registers = record (t.registers) { general = regs } });
        }))

-- `task_run`: the registers that it enters user mode with.
unfoldable pub task_run : Tasks → Code TaskRegisters
task_run s = if s.current == 0 then err enotask else ok (s.node s.current).registers
