-- ===== src/Isr80h.antt =====
-- src/kernel/isr80h/isr80h.c and the registrations of src/kernel/isr80h/commands.c: the table of
-- kernel commands that a user program reaches through interrupt 0x80. A command is an `int`.
pub mod Commands
use asif_os.Prelude.{
  ℕ, Bool, true, false, Option, none, some, List, [], ◌∷◌, ltb, if◌then◌else◌, get_or, set,
  replicate, Option-cases,
}
use asif_os.Prelude.Int.{ℤ, pos, negsuc}
use asif_os.Kern.Status.{Status, all_ok, einvarg, etaken}

-- NUTTLE_ISR80H_MAX_COMMANDS
abbrev pub max_commands : ℕ
max_commands = 8

-- `command < 0 || command >= NUTTLE_ISR80H_MAX_COMMANDS`, negated
abbrev pub in_table : ℤ → Bool
in_table (pos n) = ltb n max_commands
in_table (negsuc n) = false

-- The index of a command that is in the table.
abbrev pub index : ℤ → ℕ
index (pos n) = n
index (negsuc n) = n

module _ {Routine : Type 0} where
  -- `isr80h_handle_command`: the routine that it calls; without one it returns 0.
  unfoldable pub handle_command : List (Option Routine) → ℤ → Option Routine
  handle_command commands command =
      if in_table command then get_or commands (index command) none else none

  -- The tests of `isr80h_register_command` behind the first: the slot, and the routine.
  pub register_at :
      List (Option Routine) → ℕ → (slot routine : Option Routine) → Status × List (Option Routine)
  register_at commands i (some taken) routine = (etaken, commands)
  register_at commands i none none = (einvarg, commands)
  register_at commands i none (some routine) = (all_ok, set commands i (some routine))

  -- `isr80h_register_command`
  unfoldable pub register_command :
      List (Option Routine) → ℤ → Option Routine → Status × List (Option Routine)
  unfolding register_at
  register_command commands command routine =
      if in_table command
      then register_at commands (index command) (get_or commands (index command) none) routine
      else (einvarg, commands)

-- The routines of src/kernel/isr80h/commands.c.
pub data Command : Type 0 where
  print getkey putchar rmchar malloc free clear putcharc : Command

-- `ISR80hKernelCommand`
abbrev pub command_number : Command → ℕ
command_number print = 0
command_number getkey = 1
command_number putchar = 2
command_number rmchar = 3
command_number malloc = 4
command_number free = 5
command_number clear = 6
command_number putcharc = 7

-- One statement of `isr80h_define_commands`, and the whole: the statuses are not looked at.
abbrev pub define : List (Option Command) → Command → List (Option Command)
define commands command =
    (register_command commands (pos (command_number command)) (some command)).1

unfoldable pub define_commands : List (Option Command) → List (Option Command)
unfolding register_command register_at
define_commands commands =
    define
      (define
        (define
          (define (define (define (define (define commands print) getkey) putchar) rmchar) malloc)
          free)
        clear)
      putcharc

-- `isr80h_init_kernel_commands`
unfoldable pub init_kernel_commands : List (Option Command)
unfolding define_commands
init_kernel_commands = define_commands (replicate max_commands none)
