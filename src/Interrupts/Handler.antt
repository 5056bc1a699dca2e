-- ===== src/Interrupts/Handler.antt =====
-- `interrupt_register_callback`, `interrupt_handler` and `acknowledge_int` of src/kernel/interrupt.
use asif_os.Prelude.{
  ℕ, ◌+◌, ◌%◌, ◌^◌, ◌≤◌, ◌<◌, ◌≡◌, ◌≢◌, refl, sym, ◌∙◌, Option, none, some, List, [], ◌∷◌, arith,
  length, set, length-set, get_or-set_self, get_or-set_ne, load-get_or,
}
use asif_os.Prelude.Int.{pos}
use asif_os.Kern.Status.{all_ok}
use asif_os.Interrupts.{
  register_at, register_callback, acknowledge_int, kernel_page, store_frame, call, acknowledge,
  task_page, interrupt_handler, total_interrupts,
}

-- In a table of 512 slots, registering a callback for an interrupt in range succeeds. From then on
-- the handler of that interrupt stores the frame of the task and makes the call between the switch to the
-- kernel's page directory and the acknowledgement; every other interrupt is handled as before.
pub register-handler :
    {Callback : Type 0} (callbacks : List (Option Callback)) (i : ℕ) (callback : Callback)
    → length callbacks ≡ total_interrupts
    → i < total_interrupts
    → (callbacks' : List (Option Callback)) × (register_callback callbacks (pos i) (some callback)
        ≡ (all_ok, callbacks'))
      × (length callbacks' ≡ total_interrupts)
      × (interrupt_handler callbacks' i
          ≡ some (
              kernel_page
              ∷ store_frame
              ∷ call callback
              ∷ acknowledge (acknowledge_int (i % 2 ^ 8))
              ∷ task_page
              ∷ []))
      × ((j : ℕ)
          → j < total_interrupts
          → j ≢ i
          → interrupt_handler callbacks' j ≡ interrupt_handler callbacks j)
unfolding register_callback register_at interrupt_handler
register-handler callbacks i callback e lt =
    let callbacks' = set callbacks i (some callback) in
    let len : length callbacks' ≡ total_interrupts = length-set callbacks i (some callback) ∙ e in
    (
      callbacks',
      ground (arith, lt),
      len,
      rw
          (
            load-get_or callbacks' i none (omega (arith, len)),
            get_or-set_self callbacks i (some callback) none (omega arith),
          )
          refl,
      λ j lt' ne.
          rw
            (
              load-get_or callbacks' j none (omega (arith, len)),
              load-get_or callbacks j none (omega (arith, e)),
              get_or-set_ne callbacks i j (some callback) none (λ same. ne (sym same)),
            )
            refl,
    )

-- The interrupts of the slave PIC are 0x28 to 0x2f and those of the master 0x20 to 0x27: a slave's
-- is acknowledged at the slave and then at the master, a master's at the master only, and any other at neither.
pub acknowledge_int_cases :
    (line : ℕ)
    → line < 8
    → (acknowledge_int (0x20 + line) ≡ (0x20, 0x20) ∷ [])
      × (acknowledge_int (0x28 + line) ≡ (0xa0, 0x20) ∷ (0x20, 0x20) ∷ [])
      × ((int_no : ℕ) → (0x20 ≤ int_no → 0x30 ≤ int_no) → acknowledge_int int_no ≡ [])
unfolding acknowledge_int
acknowledge_int_cases line lt =
    (ground (arith, lt), ground (arith, lt), λ int_no out. ground (arith, out))
