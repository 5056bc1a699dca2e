-- ===== src/System/Interrupt.antt =====
-- `interrupt_handler` of src/kernel/interrupt/interrupts.c on the whole kernel, with the handler that
-- `ps2_init` registers.
use asif_os.Prelude.{ℕ, Bool, Option, none, some, List, [], ◌∷◌, ◌==◌, if◌then◌else◌, ◌>>=◌}
use asif_os.Io.{Ports, outb}
use asif_os.Keyboard.Ps2
use asif_os.Task.{GeneralRegisters, task_store_frame}
use asif_os.Process.Kernel.{write_process}
use asif_os.Interrupts
use asif_os.System.{System}
use asif_os.System

-- The only callback that the kernel registers: `ps2_keyboard_interrupt_handler`, for IRQ 1.
pub data Callback : Type 0 where
  ps2_keyboard : Callback

abbrev pub keyboard_irq : ℕ
keyboard_irq = 0x21

-- The machine: the kernel and its ports.
abbrev pub Machine : Type 0 → Type 0
Machine Data = System Data × Ports

abbrev pub acknowledge_all : List (ℕ × ℕ) → Ports → Ports
acknowledge_all [] ports = ports
acknowledge_all ((port, value) ∷ writes) ports = acknowledge_all writes (outb port value ports)

module _ {Data : Type 0} where
  -- The callback writes to the buffer of `process_current`, between the kernel's pages and the task's.
  unfoldable pub press : (shift : Bool) → Machine Data → Option (Machine Data)
  press shift (sys, ports) =
      let k = sys.kernel in
      let pressed =
        Ps2.interrupt_handler shift (k.process k.current).buffer ports >>= λ (buffer, ports').
        let k' = write_process k k.current (record (k.process k.current) { buffer = buffer }) in
        System.task_page (record (System.kernel_page sys) { kernel = k' }) >>= λ sys'.
        some (sys', ports') in
      if k.current == 0 then none else pressed

  -- One statement of `interrupt_handler`.
  unfoldable pub perform :
      (shift : Bool)
      → GeneralRegisters
      → Interrupts.Event Callback
      → Machine Data
      → Option (Machine Data)
  unfolding press
  perform shift frame Interrupts.kernel_page (sys, ports) = some (System.kernel_page sys, ports)
  perform shift frame Interrupts.store_frame (sys, ports) =
      task_store_frame sys.kernel.tasks frame >>= λ tasks.
      some (record sys { kernel = record (sys.kernel) { tasks = tasks } }, ports)
  perform shift frame (Interrupts.call ps2_keyboard) machine = press shift machine
  perform shift frame (Interrupts.acknowledge writes) (sys, ports) =
      some (sys, acknowledge_all writes ports)
  perform shift frame Interrupts.task_page (sys, ports) =
      System.task_page sys >>= λ sys'. some (sys', ports)

  unfoldable pub perform_all :
      (shift : Bool)
      → GeneralRegisters
      → List (Interrupts.Event Callback)
      → Machine Data
      → Option (Machine Data)
  perform_all shift frame [] machine = some machine
  perform_all shift frame (event ∷ events) machine =
      perform shift frame event machine >>= perform_all shift frame events

  -- `interrupt_handler`
  unfoldable pub interrupt :
      List (Option Callback)
      → (int_no : ℕ) → (shift : Bool) → GeneralRegisters
      → Machine Data
      → Option (Machine Data)
  unfolding perform perform_all
  interrupt callbacks int_no shift frame machine =
      Interrupts.interrupt_handler callbacks int_no >>= λ events.
      perform_all shift frame events machine
