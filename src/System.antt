-- ===== src/System.antt =====
-- The bodies of the kernel commands of src/kernel/isr80h/commands.c and `isr80h_handler` of
-- src/kernel/isr80h/isr80h.c over the parts that they reach: the processes and their tasks, the screen,
-- the bytes of memory that a task can name, and the directory that paging uses. `none` is a fault or a
-- panic of the kernel.
pub mod Call
pub mod Interrupt
pub mod Press
pub mod Handled
pub mod Typed
use asif_os.Prelude.{
  ℕ, zero, suc, ◌+◌, ◌-◌, ◌*◌, ◌%◌, ◌^◌, Bool, Option, none, some, List, [], ◌∷◌, ◌==◌,
  if◌then◌else◌, ◌>>=◌, ltb, replicate,
}
use asif_os.Prelude.Int.{ℤ}
use asif_os.Kern.Status.{Status}
use asif_os.Heap.{Heap}
use asif_os.Keyboard.{KeyboardBuffer, push, pop}
use asif_os.Paging.{get_physical_addr}
use asif_os.Task.{Tasks, GeneralRegisters, task_store_frame, user_stack}
use asif_os.Tty.{Tty, tty_white, putc, puts, rmc, clean, reset}
use asif_os.Isr80h.{
  Command, handle_command, print, getkey, putchar, rmchar, malloc, free, clear, putcharc,
}
use asif_os.Process.{Process, pointer, alloc_malloc, alloc_free}
use asif_os.Process.Kernel.{Kernel, NuttleProcess, write_process, with_heap}
use asif_os.Process.Map.{stack_size, stack_end}

-- The kernel, the screen, the bytes of memory, the directory that paging uses, and the kernel's own.
pub record System (Data : Type 0) : Type 0 where
  pub kernel : Kernel Heap Data
  pub tty : Tty
  pub bytes : ℕ → ℕ
  pub loaded : ℕ
  pub kernel_directory : ℕ

-- `memcpyk` out of the bytes of memory.
abbrev pub copy_bytes : (size : ℕ) → (ℕ → ℕ) → (at : ℕ) → List ℕ
copy_bytes zero bytes at = []
copy_bytes (suc size) bytes at = bytes at ∷ copy_bytes size bytes ((at + 1) % 2 ^ 32)

-- The word at an address, low byte first.
abbrev pub word_from : (ℕ → ℕ) → (at : ℕ) → ℕ
word_from bytes at =
    bytes at
    + 2 ^ 8 * bytes ((at + 1) % 2 ^ 32)
    + 2 ^ 16 * bytes ((at + 2) % 2 ^ 32)
    + 2 ^ 24 * bytes ((at + 3) % 2 ^ 32)

module _ {Data : Type 0} where
  -- `task_get_current`, which is not the null pointer, and its process.
  abbrev pub current_process : Kernel Heap Data → Option ℕ
  current_process k =
      let process = (k.tasks.node k.tasks.current).process in
      if k.tasks.current == 0 then none else if process == 0 then none else some process

  -- `keyboard_pop`
  abbrev pub pop_of : Kernel Heap Data → (addr : ℕ) → Option (ℕ × Kernel Heap Data)
  pop_of k addr = pop (k.process addr).buffer >>= λ (event, buffer).
      some (event, write_process k addr (record (k.process addr) { buffer = buffer }))

  unfoldable pub keyboard_pop : Kernel Heap Data → Option (ℕ × Kernel Heap Data)
  keyboard_pop k = current_process k >>= pop_of k

  -- `keyboard_push`, to the buffer of `process_current`.
  unfoldable pub keyboard_push : Kernel Heap Data → (event : ℕ) → Option (Status × Kernel Heap Data)
  keyboard_push k event =
      let pushed = push (k.process k.current).buffer event >>= λ (res, buffer).
      some (res, write_process k k.current (record (k.process k.current) { buffer = buffer })) in
      let refused = push (k.process k.current).buffer 0 >>= λ (res, buffer). some (res, k) in
      if event == 0 then refused else if k.current == 0 then none else pushed

  -- The directory of a task: the word of its chunk.
  abbrev pub task_directory : Kernel Heap Data → (task : ℕ) → ℕ
  task_directory k task = k.mem (k.tasks.node task).chunk

  -- `task_copy_string`: all the bytes behind the physical address of the first.
  unfoldable pub task_copy_string : System Data → (task virt size : ℕ) → List ℕ
  task_copy_string sys task virt size =
      let k = sys.kernel in
      copy_bytes size sys.bytes (pointer (get_physical_addr k.mem (task_directory k task) virt))

  -- `kernel_page`, and `task_page` of the current task.
  abbrev pub kernel_page : System Data → System Data
  kernel_page sys = record sys { loaded = sys.kernel_directory }

  abbrev pub task_page : System Data → Option (System Data)
  task_page sys =
      let k = sys.kernel in
      if k.tasks.current == 0
      then none
      else some (record sys { loaded = task_directory k k.tasks.current })

  -- `task_get_stack_item`: the word is read with the directory of the task, and the kernel's is loaded then.
  unfoldable pub task_get_stack_item : System Data → (task index : ℕ) → ℕ × System Data
  task_get_stack_item sys task index =
      let k = sys.kernel in
      let virt = (stack_end + stack_size + 2 ^ 32 - 4 * (index + 1)) % 2 ^ 32 in
      (
        word_from sys.bytes (pointer (get_physical_addr k.mem (task_directory k task) virt)),
        kernel_page sys,
      )

-- The text that starts in a buffer; without a NUL the reader leaves the buffer.
unfoldable pub text_in : List ℕ → Option (List ℕ)
text_in [] = none
text_in (byte ∷ bytes) =
    let rest = text_in bytes >>= λ text. some (byte ∷ text) in if byte == 0 then some [] else rest
