-- ===== src/Interrupts.antt =====
-- src/kernel/interrupt/{idt.c, interrupts.c, pic.c}: the interrupt descriptor table, the callbacks of
-- the kernel, and the acknowledgement of hardware interrupts. The addresses of the assembly
-- routines are the linker's: `wrapper_entry` and `isr80h_wrapper` are parameters.
pub mod Table
pub mod Handler
pub mod Pic
use asif_os.Prelude.{
  ℕ, zero, suc, ◌+◌, ◌-◌, ◌*◌, ◌/◌, ◌%◌, ◌^◌, bit_or, bit_and, Bool, true, false, Option, none,
  some, List, [], ◌∷◌, ◌++◌, ◌==◌, ltb, if◌then◌else◌, ◌>>=◌, store, load, set, replicate,
}
use asif_os.Prelude.Int.{ℤ, pos, negsuc}
use asif_os.Kern.Status.{Status, all_ok, einvarg}

-- NUTTLE_TOTAL_INTERRUPTS and NUTTLE_KERNEL_CODE_SEGMENT_SELECTOR
abbrev pub total_interrupts : ℕ
total_interrupts = 512

abbrev pub code_selector : ℕ
code_selector = 0x08

-- NUTTLE_INTERRUPT_GATE and NUTTLE_TRAP_GATE
abbrev pub interrupt_gate : ℕ
interrupt_gate = 0xe

abbrev pub trap_gate : ℕ
trap_gate = 0xf

-- `IDTEntry`
pub record IdtEntry : Type 0 where
  pub base_low : ℕ
  pub selector : ℕ
  pub reserved : ℕ
  pub flags : ℕ
  pub base_high : ℕ

-- The entry that `idt_add_entry` writes.
unfoldable pub make_entry : ℕ → ℕ → IdtEntry
make_entry type address = record {
  base_low = bit_and address 0xffff;
  selector = code_selector;
  reserved = 0;
  flags = bit_or (0xe * 2 ^ 4) type;
  base_high = address / 2 ^ 16;
}

-- `idt_add_entry`
unfoldable pub add_entry : List IdtEntry → ℕ → ℕ → ℕ → Option (List IdtEntry)
unfolding make_entry
add_entry idt interrupt_no type address = store idt interrupt_no (make_entry type address)

module _ (wrapper_entry : ℕ → ℕ) (isr80h_wrapper : ℕ) where
  -- The loop of `interrupt_init`, `n` entries before the end.
  unfoldable pub add_entries : List IdtEntry → ℕ → ℕ → Option (List IdtEntry)
  unfolding add_entry
  add_entries idt i zero = some idt
  add_entries idt i (suc n) =
      add_entry idt i trap_gate (wrapper_entry i) >>= λ idt'. add_entries idt' (i + 1) n

  -- `interrupt_init`: the callbacks and the table.
  unfoldable pub interrupt_init :
      {Callback : Type 0} → List IdtEntry → Option (List (Option Callback) × List IdtEntry)
  interrupt_init idt = add_entries idt 0 total_interrupts >>= λ idt'.
      add_entry idt' 0x80 interrupt_gate isr80h_wrapper >>= λ idt''.
      some (replicate total_interrupts none, idt'')

module _ {Callback : Type 0} where
  -- The rest of `interrupt_register_callback`, behind the test for `nullptr`.
  pub register_at : List (Option Callback) → ℤ → Callback → Status × List (Option Callback)
  register_at callbacks (negsuc i) callback = (einvarg, callbacks)
  register_at callbacks (pos i) callback =
      if ltb i total_interrupts
      then (all_ok, set callbacks i (some callback))
      else (einvarg, callbacks)

  -- `interrupt_register_callback`
  unfoldable pub register_callback :
      List (Option Callback) → ℤ → Option Callback → Status × List (Option Callback)
  unfolding register_at
  register_callback callbacks index none = (einvarg, callbacks)
  register_callback callbacks index (some callback) = register_at callbacks index callback

-- `acknowledge_int`: the port writes, in order.
unfoldable pub acknowledge_int : ℕ → List (ℕ × ℕ)
acknowledge_int int_no =
    if ltb 0x1f int_no
    then if ltb int_no 0x30
      then (if ltb 0x27 int_no then (0xa0, 0x20) ∷ [] else []) ++ ((0x20, 0x20) ∷ [])
      else []
    else []

-- What `interrupt_handler` does, in order. The stored frame is the current task's, which there is from
-- the first program on.
pub data Event (Callback : Type 0) : Type 0 where
  kernel_page : Event Callback
  store_frame : Event Callback
  call : Callback → Event Callback
  acknowledge : List (ℕ × ℕ) → Event Callback
  task_page : Event Callback

-- The calls of a registered callback.
abbrev pub call_events : {Callback : Type 0} → Option Callback → List (Event Callback)
call_events none = []
call_events (some callback) = store_frame ∷ call callback ∷ []

-- `interrupt_handler`; `acknowledge_int` takes the low byte of the number.
unfoldable pub interrupt_handler :
    {Callback : Type 0} → List (Option Callback) → ℕ → Option (List (Event Callback))
unfolding acknowledge_int
interrupt_handler callbacks int_no = load callbacks int_no >>= λ callback. some (
    kernel_page
    ∷ (call_events callback ++ (acknowledge (acknowledge_int (int_no % 2 ^ 8)) ∷ task_page ∷ [])))
