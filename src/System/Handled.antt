-- ===== src/System/Handled.antt =====
-- The handler of src/kernel/keyboard/ps2.c and the stored frame, for a task that runs.
use asif_os.Prelude.{
  ℕ, ◌<◌, ◌≡◌, ◌≢◌, refl, sym, ap, ◌∙◌, subst, false, none, some, List, ◌∷◌, ◌>>=◌, pick_else,
  leb_else, get_or,
}
use asif_os.Heap.{Heap}
use asif_os.Io.{Ports}
use asif_os.Keyboard.{KeyboardBuffer}
use asif_os.Keyboard.Queue
use asif_os.Keyboard.Refine.{contents, push_refines}
use asif_os.Keyboard.Refine
use asif_os.Keyboard.Ps2.{data_port, scan_set, interrupt_handler}
use asif_os.Keyboard.Ack.{interrupt_handler_lem}
use asif_os.Task.{Tasks, GeneralRegisters, task_store_frame}
use asif_os.Process.Kernel.{Kernel, NuttleProcess, write_process}
use asif_os.Process.Loaded.{write_process_same}
use asif_os.System.{System, task_directory, kernel_page, task_page}
use asif_os.System.Interrupt.{press}
use asif_os.System.Press.{Runs, waiting, store_frame_lem}

module _ {Data : Type 0} where
  -- The keyboard's handler between the two switches of pages.
  pub press_lem :
      (sys : System Data) (task addr directory scancode code : ℕ) (after writes : List (ℕ × ℕ))
      → Runs sys task addr directory
      → Refine.IsValid (sys.kernel.process addr).buffer
      → 0 < scancode
      → scancode < 84
      → (sys' : System Data) × (press false (
        sys,
        record { answers = (data_port, scancode) ∷ (data_port, code) ∷ after; writes = writes },
      )
          ≡ some (sys', record { answers = after; writes = writes }))
        × (waiting sys' addr ≡ (Queue.push (waiting sys addr) (get_or scan_set scancode 0)).1)
        × Runs sys' task addr directory
        × Refine.IsValid (sys'.kernel.process addr).buffer
        × (sys'.loaded ≡ directory)
        × (sys'.kernel.tasks ≡ sys.kernel.tasks)
  unfolding press write_process
  press_lem sys task addr directory scancode code after writes runs valid some_code lt =
      let k : Kernel Heap Data = sys.kernel in
      let buf : KeyboardBuffer = (k.process k.current).buffer in
      let ch : ℕ = get_or scan_set scancode 0 in
      let there : k.process k.current ≡ k.process addr = ap k.process runs.current_at in
      let (buffer, pushed, holds, valid') =
        push_refines buf ch (subst Refine.IsValid (ap (λ p. p.buffer) (sym there)) valid) in
      let p : NuttleProcess = record (k.process k.current) { buffer = buffer } in
      let k' : Kernel Heap Data = write_process k k.current p in
      let ports : Ports = record {
        answers = (data_port, scancode) ∷ (data_port, code) ∷ after;
        writes = writes;
      } in
      let ports' : Ports = record { answers = after; writes = writes } in
      let last : System Data = record sys {
        kernel = k';
        loaded = task_directory k' k.tasks.current;
      } in
      let written =
        ap (λ a. (k'.process a).buffer) (sym runs.current_at)
        ∙ ap (λ p. p.buffer) (write_process_same k k.current p) in
      let current : k.current ≢ 0 = λ e. runs.some_process (sym runs.current_at ∙ e) in
      let task_runs : k.tasks.current ≢ 0 = λ e. runs.some_task (sym runs.task_at ∙ e) in
      let handled : interrupt_handler false buf ports ≡ some (buffer, ports') =
        interrupt_handler_lem buf scancode code after writes some_code
        ∙ leb_else lt _ _
        ∙ ap (λ m. m >>= λ (res, buf'). some (buf', ports')) pushed in
      (
        last,
        pick_else current none _
            ∙ ap
                (λ m. m >>= λ (buffer, ports').
                  let k' =
                    write_process k k.current (record (k.process k.current) { buffer = buffer }) in
                  task_page (record (kernel_page sys) { kernel = k' }) >>= λ sys'.
                  some (sys', ports'))
                handled
            ∙ ap (λ m. m >>= λ sys'. some (sys', ports')) (pick_else task_runs none (some last)),
        ap contents written ∙ holds ∙ ap (λ p. (Queue.push (contents p.buffer) ch).1) there,
        record {
          task_at = runs.task_at;
          some_task = runs.some_task;
          process_at = runs.process_at;
          some_process = runs.some_process;
          current_at = runs.current_at;
          directory_at = runs.directory_at;
        },
        subst Refine.IsValid (sym written) valid',
        ap (task_directory k') runs.task_at ∙ runs.directory_at,
        refl,
      )

  -- The frame is stored in the task that runs, and it runs still.
  pub Runs-store_frame :
      (sys : System Data) (frame : GeneralRegisters) (task addr directory : ℕ)
      → Runs sys task addr directory
      → (tasks : Tasks) × (task_store_frame sys.kernel.tasks frame ≡ some tasks)
        × Runs (record sys { kernel = record (sys.kernel) { tasks = tasks } }) task addr directory
        × ((tasks.node task).registers.general ≡ frame)
  Runs-store_frame sys frame task addr directory runs =
      let k : Kernel Heap Data = sys.kernel in
      let (tasks, stored, same_current, same_process, same_chunk, now) =
        store_frame_lem k.tasks frame (λ e. runs.some_task (sym runs.task_at ∙ e)) in
      (
        tasks,
        stored,
        record {
          task_at = same_current ∙ runs.task_at;
          some_task = runs.some_task;
          process_at =
              ap (λ t. (tasks.node t).process) (sym runs.task_at)
              ∙ same_process
              ∙ ap (λ t. (k.tasks.node t).process) runs.task_at
              ∙ runs.process_at;
          some_process = runs.some_process;
          current_at = runs.current_at;
          directory_at =
              ap (λ t. k.mem (tasks.node t).chunk) (sym runs.task_at)
              ∙ ap k.mem same_chunk
              ∙ ap (λ t. k.mem (k.tasks.node t).chunk) runs.task_at
              ∙ runs.directory_at;
        },
        ap (λ t. (tasks.node t).registers.general) (sym runs.task_at) ∙ now,
      )
