-- ===== src/Tests/SystemRuns.antt =====
-- A key press on the whole kernel, with one process that has a key waiting.
use asif_os.Prelude.{
  ℕ, ◌≡◌, refl, arith, false, Option, none, some, List, [], ◌∷◌, ◌++◌, replicate, load,
}
use asif_os.Prelude.Int.{pos}
use asif_os.Keyboard.Queue
use asif_os.Keyboard.Ps2.{data_port}
use asif_os.Isr80h.{init_kernel_commands}
use asif_os.Task.{GeneralRegisters, no_registers}
use asif_os.Process.Kernel.{no_process}
use asif_os.System.{System}
use asif_os.System.Call.{isr80h_handler}
use asif_os.System.Interrupt.{Callback, ps2_keyboard, keyboard_irq, interrupt}
use asif_os.System.Press.{waiting}
use asif_os.System.Typed.{getkey-interrupt}
use asif_os.Tests.KeyboardRuns.{one_key, one_key-IsValid}

abbrev callbacks : List (Option Callback)
callbacks = replicate 0x21 none ++ (some ps2_keyboard ∷ replicate 478 none)

abbrev machine : System ℕ
machine = record {
  kernel = record {
    files = record { heap = record { table = []; size = 0; start_addr = 0x1000000 }; table = [] };
    mem = λ at. 0x800000;
    tasks = record {
      node = λ at. record {
        chunk = 0x700000;
        registers = no_registers;
        process = 0x500000;
        prev = 0;
        next = 0;
      };
      head = 0x600000;
      tail = 0x600000;
      current = 0x600000;
      released = [];
    };
    process = λ at. record no_process { task = 0x600000; buffer = one_key };
    processes = 0x500000 ∷ replicate 15 0;
    current = 0x500000;
  };
  tty = record { video_mem = []; char_idx = 0; ports = [] };
  bytes = λ at. 0;
  loaded = 0x900000;
  kernel_directory = 0x900000;
}

abbrev frame : GeneralRegisters
frame = record (no_registers.general) { eax = 1 }

registered : load callbacks keyboard_irq ≡ some (some ps2_keyboard)
unfolding load
registered = refl

getkey-interrupt_example :
    (pressed : System ℕ) × (answered : System ℕ) × (interrupt callbacks keyboard_irq false frame
        (machine, record { answers = (data_port, 0x1e) ∷ (data_port, 0) ∷ []; writes = [] })
      ≡ some (pressed, record { answers = []; writes = (0x20, 0x20) ∷ [] }))
    × (waiting pressed 0x500000 ≡ 9 ∷ 97 ∷ [])
    × ((pressed.kernel.tasks.node 0x600000).registers.general ≡ frame)
    × (pressed.loaded ≡ 0x800000)
    × (isr80h_handler init_kernel_commands (pos 1) frame pressed ≡ some (9, answered))
    × (waiting answered 0x500000 ≡ 97 ∷ [])
    × (answered.loaded ≡ 0x800000)
unfolding Queue.pop
getkey-interrupt_example =
    getkey-interrupt callbacks frame frame machine 0x600000 0x500000 0x800000 0x1e 0 [] []
      registered
      (record {
        task_at = refl;
        some_task = λ e. omega arith;
        process_at = refl;
        some_process = λ e. omega arith;
        current_at = refl;
        directory_at = refl;
      })
      one_key-IsValid (omega arith) (omega arith) (omega arith)
