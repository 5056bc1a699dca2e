-- ===== src/Isr80h/Commands.antt =====
-- The command table of src/kernel/isr80h/isr80h.c: what a registration changes, and what the kernel
-- answers after its initialisation.
use asif_os.Prelude.{
  ℕ, ◌<◌, ◌≡◌, ◌≢◌, refl, ap, sym, ◌∙◌, arith, Option, none, some, List, length, get_or, set,
  get_or-set_self, get_or-set_ne, length-set, ltb, if◌then◌else◌,
}
use asif_os.Prelude.Int.{ℤ, pos, negsuc}
use asif_os.Kern.Status.{all_ok, etaken}
use asif_os.Isr80h.{
  max_commands, handle_command, register_at, register_command, Command, command_number,
  define_commands, init_kernel_commands, print, getkey, putchar, rmchar, malloc, free, clear,
  putcharc,
}

-- After the kernel's initialisation each of the eight commands calls its own routine.
pub handle-init :
    (command : Command)
    → handle_command init_kernel_commands (pos (command_number command)) ≡ some command
unfolding init_kernel_commands define_commands register_command register_at handle_command
handle-init print = refl
handle-init getkey = refl
handle-init putchar = refl
handle-init rmchar = refl
handle-init malloc = refl
handle-init free = refl
handle-init clear = refl
handle-init putcharc = refl

unchanged :
    {Routine : Type 0} (commands : List (Option Routine)) (n : ℕ) (routine : Routine) (other : ℤ)
    → other ≢ pos n
    → handle_command (set commands n (some routine)) other ≡ handle_command commands other
unfolding handle_command
unchanged commands n routine (pos m) ne =
    let apart : get_or (set commands n (some routine)) m none ≡ get_or commands m none =
      get_or-set_ne commands n m (some routine) none (λ e. ne (ap pos (sym e))) in
    ap (λ called. if ltb m max_commands then called else none) apart
unchanged commands n routine (negsuc m) ne = refl

-- In a table of eight slots, registering a routine for a command in range whose slot is free
-- succeeds: the command then calls that routine, and every other command, in range or not, calls
-- what it called before.
pub register-handle :
    {Routine : Type 0} (commands : List (Option Routine)) (n : ℕ) (routine : Routine)
    → length commands ≡ max_commands
    → n < max_commands
    → handle_command commands (pos n) ≡ none
    → (commands' : List (Option Routine)) × (register_command commands (pos n) (some routine)
        ≡ (all_ok, commands'))
      × (length commands' ≡ max_commands)
      × (handle_command commands' (pos n) ≡ some routine)
      × ((other : ℤ)
          → other ≢ pos n
          → handle_command commands' other ≡ handle_command commands other)
unfolding register_command register_at handle_command
register-handle commands n routine e lt open_slot =
    let slot : get_or commands n none ≡ none = ground (arith, open_slot) in
    (
      set commands n (some routine),
      ground (arith, slot),
      length-set commands n (some routine) ∙ e,
      ground (arith, get_or-set_self commands n (some routine) none (omega arith)),
      unchanged commands n routine,
    )

-- A second registration of a command is refused, and the table stays as it is.
pub register-taken :
    {Routine : Type 0} (commands : List (Option Routine)) (command : ℤ) (first second : Routine)
    → handle_command commands command ≡ some first
    → register_command commands command (some second) ≡ (etaken, commands)
unfolding register_command register_at handle_command
register-taken commands (pos n) first second taken = ground (arith, taken)
register-taken commands (negsuc n) first second taken = cc
