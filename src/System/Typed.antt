-- ===== src/System/Typed.antt =====
-- A key press that a program reads: the keyboard's interrupt, and then the kernel command `getkey`.
use asif_os.Prelude.{
  ℕ, ◌%◌, ◌^◌, ◌<◌, ◌≡◌, ◌≢◌, sym, ap, ◌∙◌, arith, false, Option, none, some, List, [], ◌∷◌, ◌++◌,
  ◌>>=◌, pick_else, length, get_or, load,
}
use asif_os.Prelude.Int.{pos}
use asif_os.Kern.Status.{Status}
use asif_os.Io.{Ports}
use asif_os.Keyboard.{max_buffer}
use asif_os.Keyboard.Queue
use asif_os.Keyboard.Refine.{contents, push_refines}
use asif_os.Keyboard.Refine
use asif_os.Keyboard.Ps2.{data_port, scan_set}
use asif_os.Keyboard.Ack.{scan_set_nonzero}
use asif_os.Task.{GeneralRegisters}
use asif_os.Isr80h.{init_kernel_commands}
use asif_os.Interrupts
use asif_os.System.{System, task_directory, kernel_page}
use asif_os.System.Call.{isr80h_handler}
use asif_os.System.Interrupt.{Callback, ps2_keyboard, keyboard_irq, perform, perform_all, interrupt}
use asif_os.System.Press.{Runs, waiting, getkey_lem}
use asif_os.System.Handled.{press_lem, Runs-store_frame}

module _ {Data : Type 0} where
  -- The keyboard's interrupt.
  interrupt_lem :
      (callbacks : List (Option Callback)) (frame : GeneralRegisters) (sys : System Data)
      (task addr directory scancode code : ℕ) (after writes : List (ℕ × ℕ))
      → load callbacks keyboard_irq ≡ some (some ps2_keyboard)
      → Runs sys task addr directory
      → Refine.IsValid (sys.kernel.process addr).buffer
      → 0 < scancode
      → scancode < 84
      → (sys' : System Data) × (interrupt callbacks keyboard_irq false frame (
        sys,
        record { answers = (data_port, scancode) ∷ (data_port, code) ∷ after; writes = writes },
      )
          ≡ some (sys', record { answers = after; writes = writes ++ ((0x20, 0x20) ∷ []) }))
        × (waiting sys' addr ≡ (Queue.push (waiting sys addr) (get_or scan_set scancode 0)).1)
        × Runs sys' task addr directory
        × Refine.IsValid (sys'.kernel.process addr).buffer
        × (sys'.loaded ≡ directory)
        × ((sys'.kernel.tasks.node task).registers.general ≡ frame)
  unfolding interrupt Interrupts.interrupt_handler Interrupts.acknowledge_int perform_all perform
  interrupt_lem callbacks frame sys task addr directory scancode code after writes registered runs
        valid some_code lt =
      let ports : Ports = record {
        answers = (data_port, scancode) ∷ (data_port, code) ∷ after;
        writes = writes;
      } in
      let ports' : Ports = record { answers = after; writes = writes } in
      let paged : System Data = kernel_page sys in
      let paged_runs : Runs paged task addr directory = record {
        task_at = runs.task_at;
        some_task = runs.some_task;
        process_at = runs.process_at;
        some_process = runs.some_process;
        current_at = runs.current_at;
        directory_at = runs.directory_at;
      } in
      let (tasks, stored, runs1, now) =
        Runs-store_frame paged frame task addr directory paged_runs in
      let sys1 : System Data = record paged { kernel = record (sys.kernel) { tasks = tasks } } in
      let (sys2, pressed, holds, runs2, valid2, at2, same_tasks) =
        press_lem sys1 task addr directory scancode code after writes runs1 valid some_code lt in
      let last : System Data = record sys2 {
        loaded = task_directory sys2.kernel sys2.kernel.tasks.current;
      } in
      let ack : List (Interrupts.Event Callback) =
        Interrupts.acknowledge ((0x20, 0x20) ∷ []) ∷ Interrupts.task_page ∷ [] in
      (
        last,
        ap
              (λ m.
                (m >>= λ callback. some (
                  Interrupts.kernel_page
                  ∷ (Interrupts.call_events callback
                      ++ (Interrupts.acknowledge (Interrupts.acknowledge_int (keyboard_irq % 2 ^ 8))
                          ∷ Interrupts.task_page
                          ∷ []))))
                >>= λ events. perform_all false frame events (sys, ports))
              registered
            ∙ ap
                (λ m.
                  (m >>= λ tasks.
                  some (record paged { kernel = record (sys.kernel) { tasks = tasks } }, ports))
                  >>= perform_all false frame (Interrupts.call ps2_keyboard ∷ ack))
                stored
            ∙ ap (λ m. m >>= perform_all false frame ack) pressed
            ∙ ap
                (λ m.
                  (m >>= λ sys'.
                  some (sys', record { answers = after; writes = writes ++ ((0x20, 0x20) ∷ []) }))
                  >>= perform_all false frame [])
                (pick_else (λ e. runs2.some_task (sym runs2.task_at ∙ e)) none (some last)),
        holds,
        record {
          task_at = runs2.task_at;
          some_task = runs2.some_task;
          process_at = runs2.process_at;
          some_process = runs2.some_process;
          current_at = runs2.current_at;
          directory_at = runs2.directory_at;
        },
        valid2,
        ap (task_directory sys2.kernel) runs2.task_at ∙ runs2.directory_at,
        ap (λ t. (t.node task).registers.general) same_tasks ∙ now,
      )

  -- With the keyboard's handler registered for its interrupt, a running task of the current process, a
  -- valid buffer of fewer than 1024 events, no shift, and a key of the scan set other than code 0: the
  -- keyboard's interrupt puts the key's character behind the events that wait, acknowledges the
  -- interrupt, and stores the frame of the task; the command getkey then answers the oldest event and
  -- leaves the others. After each of the two the task's directory is the one that paging uses.
  pub getkey-interrupt :
      (callbacks : List (Option Callback)) (frame frame' : GeneralRegisters) (sys : System Data)
      (task addr directory scancode code : ℕ) (after writes : List (ℕ × ℕ))
      → load callbacks keyboard_irq ≡ some (some ps2_keyboard)
      → Runs sys task addr directory
      → Refine.IsValid (sys.kernel.process addr).buffer
      → length (waiting sys addr) < max_buffer
      → 0 < scancode
      → scancode < 84
      → (pressed : System Data) × (answered : System Data) × (interrupt callbacks keyboard_irq false
            frame
            (
              sys,
              record {
                answers = (data_port, scancode) ∷ (data_port, code) ∷ after;
                writes = writes;
              },
            )
          ≡ some (pressed, record { answers = after; writes = writes ++ ((0x20, 0x20) ∷ []) }))
        × (waiting pressed addr ≡ waiting sys addr ++ (get_or scan_set scancode 0 ∷ []))
        × ((pressed.kernel.tasks.node task).registers.general ≡ frame)
        × (pressed.loaded ≡ directory)
        × (isr80h_handler init_kernel_commands (pos 1) frame' pressed
            ≡ some
                ((Queue.pop (waiting sys addr ++ (get_or scan_set scancode 0 ∷ []))).0, answered))
        × (waiting answered addr
            ≡ (Queue.pop (waiting sys addr ++ (get_or scan_set scancode 0 ∷ []))).1)
        × (answered.loaded ≡ directory)
  unfolding Queue.push
  getkey-interrupt callbacks frame frame' sys task addr directory scancode code after writes
        registered runs valid room some_code lt =
      let (pressed, run, holds, runs', valid', at, now) =
        interrupt_lem callbacks frame sys task addr directory scancode code after writes registered
          runs valid some_code lt in
      let (answered, answer, rest, _, _, at', _) =
        getkey_lem pressed frame' task addr directory runs' valid' in
      let full : length (waiting sys addr) ≢ max_buffer = λ e. omega (arith, room) in
      let queue : waiting pressed addr ≡ waiting sys addr ++ (get_or scan_set scancode 0 ∷ []) =
        holds
        ∙ ap (λ (q : Status × List ℕ). q.1)
            (pick_else (scan_set_nonzero scancode some_code lt) _ _ ∙ pick_else full _ _) in
      (
        pressed,
        answered,
        run,
        queue,
        now,
        at,
        answer ∙ ap (λ q. some ((Queue.pop q).0, answered)) queue,
        rest ∙ ap (λ q. (Queue.pop q).1) queue,
        at',
      )
