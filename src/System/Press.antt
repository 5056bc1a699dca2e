-- ===== src/System/Press.antt =====
-- The kernel command `getkey` of src/kernel/isr80h/commands.c, and the task that runs.
use asif_os.Prelude.{
  ℕ, ◌≡◌, ◌≢◌, refl, sym, ap, ◌∙◌, subst, Option, none, some, List, ◌==◌, if◌then◌else◌, ◌>>=◌,
  pick_else,
}
use asif_os.Prelude.Int.{pos}
use asif_os.Heap.{Heap}
use asif_os.Keyboard.{KeyboardBuffer, pop}
use asif_os.Keyboard.Queue
use asif_os.Keyboard.Refine.{contents, push_refines, pop_refines}
use asif_os.Keyboard.Refine
use asif_os.Task.{Tasks, GeneralRegisters, task_store_frame, write_task}
use asif_os.Task.Chain.{write_same}
use asif_os.Isr80h.{init_kernel_commands, handle_command, getkey}
use asif_os.Isr80h.Commands.{handle-init}
use asif_os.Process.Kernel.{Kernel, write_process}
use asif_os.Process.Loaded.{write_process_same}
use asif_os.System.{System, keyboard_pop, pop_of, task_directory, kernel_page, task_page}
use asif_os.System.Call.{call_command, run_command, isr80h_handler}

-- The task that runs, and the process that it runs: the one that the keyboard writes to.
pub record Runs {Data : Type 0} (sys : System Data) (task addr directory : ℕ) : Type 0 where
  pub task_at : sys.kernel.tasks.current ≡ task
  pub some_task : task ≢ 0
  pub process_at : (sys.kernel.tasks.node task).process ≡ addr
  pub some_process : addr ≢ 0
  pub current_at : sys.kernel.current ≡ addr
  pub directory_at : task_directory sys.kernel task ≡ directory

-- The events that wait for a process.
abbrev pub waiting : {Data : Type 0} → System Data → (addr : ℕ) → List ℕ
waiting sys addr = contents (sys.kernel.process addr).buffer

-- The frame of the running task is stored.
pub store_frame_lem :
    (s : Tasks) (frame : GeneralRegisters)
    → s.current ≢ 0
    → (s' : Tasks) × (task_store_frame s frame ≡ some s')
      × (s'.current ≡ s.current)
      × ((s'.node s.current).process ≡ (s.node s.current).process)
      × ((s'.node s.current).chunk ≡ (s.node s.current).chunk)
      × ((s'.node s.current).registers.general ≡ frame)
unfolding task_store_frame
store_frame_lem s frame some_task =
    let t = s.node s.current in
    let t' = record t { registers = record (t.registers) { general = frame } } in
    let now = write_same s.node s.current t' in
    (
      record s { node = write_task s.node s.current t' },
      pick_else some_task _ _,
      refl,
      ap (λ t. t.process) now,
      ap (λ t. t.chunk) now,
      ap (λ t. t.registers.general) now,
    )

module _ {Data : Type 0} where
  keyboard_pop_lem :
      (k : Kernel Heap Data) (addr event : ℕ) (buffer : KeyboardBuffer)
      → k.tasks.current ≢ 0
      → (k.tasks.node k.tasks.current).process ≡ addr
      → addr ≢ 0
      → pop (k.process addr).buffer ≡ some (event, buffer)
      → keyboard_pop k
        ≡ some (event, write_process k addr (record (k.process addr) { buffer = buffer }))
  unfolding keyboard_pop
  keyboard_pop_lem k addr event buffer some_task at some_process popped =
      ap (λ m. m >>= pop_of k)
        (pick_else some_task none _
          ∙ ap (λ p. if p == 0 then none else some p) at
          ∙ pick_else some_process none (some addr))
      ∙ ap
          (λ m. m >>= λ (event, buffer).
            some (event, write_process k addr (record (k.process addr) { buffer = buffer })))
          popped

  -- The end of `isr80h_handler`.
  abbrev leave : ℕ × System Data → Option (ℕ × System Data)
  leave (res, sys) = task_page sys >>= λ sys'. some (res, sys')

  -- The kernel command getkey of the running task answers the oldest event that waits, and stores the
  -- frame of the task.
  pub getkey_lem :
      (sys : System Data) (frame : GeneralRegisters) (task addr directory : ℕ)
      → Runs sys task addr directory
      → Refine.IsValid (sys.kernel.process addr).buffer
      → (sys' : System Data) × (isr80h_handler init_kernel_commands (pos 1) frame sys
          ≡ some ((Queue.pop (waiting sys addr)).0, sys'))
        × (waiting sys' addr ≡ (Queue.pop (waiting sys addr)).1)
        × Runs sys' task addr directory
        × Refine.IsValid (sys'.kernel.process addr).buffer
        × (sys'.loaded ≡ directory)
        × ((sys'.kernel.tasks.node task).registers.general ≡ frame)
  unfolding isr80h_handler run_command write_process
  getkey_lem sys frame task addr directory runs valid =
      let k : Kernel Heap Data = sys.kernel in
      let current : k.tasks.current ≢ 0 = λ e. runs.some_task (sym runs.task_at ∙ e) in
      let (tasks, stored, same_current, same_process, same_chunk, now) =
        store_frame_lem k.tasks frame current in
      let (buffer, popped, rest, valid') = pop_refines (k.process addr).buffer valid in
      let sys1 : System Data = record (kernel_page sys) { kernel = record k { tasks = tasks } } in
      let k2 : Kernel Heap Data =
        write_process sys1.kernel addr (record (k.process addr) { buffer = buffer }) in
      let last : System Data = record sys1 {
        kernel = k2;
        loaded = task_directory k2 k2.tasks.current;
      } in
      let written =
        ap (λ p. p.buffer)
          (write_process_same sys1.kernel addr (record (k.process addr) { buffer = buffer })) in
      let at : (tasks.node tasks.current).process ≡ addr =
        ap (λ t. (tasks.node t).process) same_current
        ∙ same_process
        ∙ ap (λ t. (k.tasks.node t).process) runs.task_at
        ∙ runs.process_at in
      let still : tasks.current ≢ 0 = λ e. current (sym same_current ∙ e) in
      let chunk : (tasks.node task).chunk ≡ (k.tasks.node task).chunk =
        ap (λ t. (tasks.node t).chunk) (sym runs.task_at)
        ∙ same_chunk
        ∙ ap (λ t. (k.tasks.node t).chunk) runs.task_at in
      let directory' : k.mem (tasks.node task).chunk ≡ directory =
        ap k.mem chunk ∙ runs.directory_at in
      (
        last,
        ap
              (λ m. m >>= λ tasks.
                call_command (record (kernel_page sys) { kernel = record k { tasks = tasks } })
                  frame (handle_command init_kernel_commands (pos 1))
                >>= leave)
              stored
            ∙ ap (λ c. call_command sys1 frame c >>= leave) (handle-init getkey)
            ∙ ap (λ m. (m >>= λ (event, k). some (event, record sys1 { kernel = k })) >>= leave)
                (keyboard_pop_lem sys1.kernel addr (Queue.pop (waiting sys addr)).0 buffer still at
                  runs.some_process popped)
            ∙ ap (λ m. m >>= λ sys'. some ((Queue.pop (waiting sys addr)).0, sys'))
                (pick_else still none (some last)),
        ap contents written ∙ rest,
        record {
          task_at = same_current ∙ runs.task_at;
          some_task = runs.some_task;
          process_at = ap (λ t. (tasks.node t).process) (sym runs.task_at ∙ sym same_current) ∙ at;
          some_process = runs.some_process;
          current_at = runs.current_at;
          directory_at = directory';
        },
        subst Refine.IsValid (sym written) valid',
        ap (task_directory k2) (same_current ∙ runs.task_at) ∙ directory',
        ap (λ t. (tasks.node t).registers.general) (sym runs.task_at) ∙ now,
      )
