-- ===== src/System/Call.antt =====
-- The commands of src/kernel/isr80h/commands.c, and `isr80h_handler`.
use asif_os.Prelude.{ℕ, ◌%◌, ◌^◌, Option, none, some, List, ◌>>=◌}
use asif_os.Prelude.Int.{ℤ}
use asif_os.Heap.{Heap}
use asif_os.Task.{GeneralRegisters, task_store_frame}
use asif_os.Tty.{Tty, tty_white, putc, puts, rmc, clean, reset}
use asif_os.Isr80h.{
  Command, handle_command, print, getkey, putchar, rmchar, malloc, free, clear, putcharc,
}
use asif_os.Process.{Process, alloc_malloc, alloc_free}
use asif_os.Process.Kernel.{Kernel, write_process, with_heap}
use asif_os.System.{
  System, current_process, keyboard_pop, task_copy_string, task_directory, kernel_page, task_page,
  text_in,
}

module _ {Data : Type 0} where
  -- A command that only writes to the screen answers the null pointer.
  abbrev pub on_screen : System Data → Option Tty → Option (ℕ × System Data)
  on_screen sys run = run >>= λ tty. some (0, record sys { tty = tty })

  -- The memory of a process, as its allocations see it, and back.
  abbrev pub memory_of : Kernel Heap Data → (addr : ℕ) → Process
  memory_of k addr = record {
    heap = k.files.heap;
    mem = k.mem;
    directory = task_directory k (k.process addr).task;
    allocations = (k.process addr).allocations;
  }

  abbrev pub set_memory : Kernel Heap Data → (addr : ℕ) → Process → Kernel Heap Data
  set_memory k addr memory =
      write_process (record (with_heap k memory.heap) { mem = memory.mem }) addr
        (record (k.process addr) { allocations = memory.allocations })

  -- The commands, with the registers of the program.
  unfoldable pub run_command : System Data → GeneralRegisters → Command → Option (ℕ × System Data)
  unfolding keyboard_pop task_copy_string text_in
  run_command sys frame print =
      text_in (task_copy_string sys sys.kernel.tasks.current frame.esi 1024) >>= λ text.
      on_screen sys (puts sys.tty text tty_white)
  run_command sys frame getkey =
      keyboard_pop sys.kernel >>= λ (event, k). some (event, record sys { kernel = k })
  run_command sys frame putchar = on_screen sys (putc sys.tty (frame.esi % 2 ^ 8) tty_white)
  run_command sys frame rmchar = on_screen sys (rmc sys.tty)
  run_command sys frame malloc = current_process sys.kernel >>= λ addr.
      alloc_malloc (memory_of sys.kernel addr) frame.esi >>= λ (virt, memory).
      some (virt, record sys { kernel = set_memory sys.kernel addr memory })
  run_command sys frame free = current_process sys.kernel >>= λ addr.
      alloc_free (memory_of sys.kernel addr) frame.esi >>= λ memory.
      some (0, record sys { kernel = set_memory sys.kernel addr memory })
  run_command sys frame clear = on_screen sys (clean sys.tty >>= λ tty. some (reset tty))
  run_command sys frame putcharc = on_screen sys (putc sys.tty (frame.esi % 2 ^ 8) frame.edi)

  -- `isr80h_handle_command`
  abbrev pub call_command :
      System Data → GeneralRegisters → Option Command → Option (ℕ × System Data)
  call_command sys frame none = some (0, sys)
  call_command sys frame (some command) = run_command sys frame command

  -- `isr80h_handler` with the table of commands: the answer to the program.
  unfoldable pub isr80h_handler :
      List (Option Command) → ℤ → GeneralRegisters → System Data → Option (ℕ × System Data)
  unfolding run_command
  isr80h_handler commands command frame sys =
      let paged = kernel_page sys in
      task_store_frame paged.kernel.tasks frame >>= λ tasks.
      call_command (record paged { kernel = record (paged.kernel) { tasks = tasks } }) frame
        (handle_command commands command)
      >>= λ (res, sys'). task_page sys' >>= λ sys''. some (res, sys'')
