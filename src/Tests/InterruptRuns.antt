-- ===== src/Tests/InterruptRuns.antt =====
-- Runs of src/kernel/interrupt and src/kernel/gdt.
use asif_os.Io.{Ports}
use asif_os.Interrupts.Pic.{
  Controller, working, wants_vector, take_writes, master_command, master_data, slave_command,
  slave_data, initialize_pic, initialize_pic_lem,
}
use asif_os.Prelude.{
  ℕ, ◌≡◌, refl, arith, Option, none, some, List, [], ◌∷◌, get_or, replicate, length-replicate, ◌+◌,
  ◌*◌, ◌%◌,
}
use asif_os.Prelude.Int.{pos}
use asif_os.Kern.Status.{all_ok}
use asif_os.Interrupts.{
  IdtEntry, interrupt_init, total_interrupts, register_callback, interrupt_handler, acknowledge_int,
  kernel_page, store_frame, call, acknowledge, task_page,
}
use asif_os.Interrupts.Table.{gate_address, no_entry, interrupt_init_lem}
use asif_os.Interrupts.Handler.{register-handler}
use asif_os.Isr80h.{Command, handle_command, max_commands}
use asif_os.Gdt.{GdtEntryStructured, GdtEntry, gdt_entry_from_structured}
use asif_os.Gdt.Decode.{Fits, Decodes, table-Decodes}

abbrev wrappers : ℕ → ℕ
wrappers i = (0x100000 + i % 512 * 32)

interrupt_init_lem_example :
    (idt : List IdtEntry) × (interrupt_init wrappers 0x12345678 {Callback = ℕ}
        (replicate total_interrupts no_entry)
      ≡ some (replicate total_interrupts none, idt))
    × (gate_address (get_or idt 0x80 no_entry) ≡ 0x12345678)
    × (gate_address (get_or idt 0x21 no_entry) ≡ 0x100420)
interrupt_init_lem_example =
    let (idt, done, len, here, gate, others) =
      interrupt_init_lem wrappers 0x12345678 (replicate total_interrupts no_entry)
        (length-replicate {A = IdtEntry} total_interrupts no_entry) (λ i. omega arith)
        (omega arith) in
    (idt, done, here, (others 0x21 (omega arith) (λ e. omega arith)).0)

-- The keyboard's interrupt.
register-handler_example :
    (callbacks : List (Option ℕ)) × (register_callback
        (replicate total_interrupts none)
        (pos 0x21)
        (some 7)
      ≡ (all_ok, callbacks))
    × (interrupt_handler callbacks 0x21
        ≡ some (
            kernel_page
            ∷ store_frame
            ∷ call 7
            ∷ acknowledge (acknowledge_int 0x21)
            ∷ task_page
            ∷ []))
register-handler_example =
    let (callbacks, done, len, handled, others) =
      register-handler (replicate total_interrupts none) 0x21 7
        (length-replicate {A = Option ℕ} total_interrupts none) (omega arith) in
    (callbacks, done, handled)

no_command : handle_command {Routine = Command} (replicate max_commands none) (pos 2) ≡ none
unfolding handle_command
no_command = refl

-- The kernel's code segment and its data segment.
abbrev kernel_code : GdtEntryStructured
kernel_code = record { base = 0; limit = 0xfffff; access_and_flags = 0xc98 }

abbrev kernel_data : GdtEntryStructured
kernel_data = record { base = 0x12345678; limit = 0x54321; access_and_flags = 0xc92 }

kernel_code-Fits : Fits kernel_code
kernel_code-Fits = record { base_in = omega arith; limit_in = omega arith; access_in = omega arith }

kernel_data-Fits : Fits kernel_data
kernel_data-Fits = record { base_in = omega arith; limit_in = omega arith; access_in = omega arith }

table-Decodes_example :
    (entries : List GdtEntry) × (gdt_entry_from_structured (kernel_code ∷ kernel_data ∷ [])
      ≡ some entries)
    × Decodes (kernel_code ∷ kernel_data ∷ []) entries
table-Decodes_example =
    table-Decodes (kernel_code ∷ kernel_data ∷ []) (kernel_code-Fits, (kernel_data-Fits, tt))

-- A master that waits for its vector, and a slave at work.
abbrev halfway : Controller
halfway = record { stage = wants_vector; vector = 8; cascade = 0; mode = 0; mask = 0xb8 }

abbrev at_work : Controller
at_work = record { stage = working; vector = 0x70; cascade = 2; mode = 1; mask = 0x8e }

initialize_pic_lem_example :
    (ports : Ports) × (initialize_pic 0x20 0x28
        (record { answers = (0x21, 0xb8) ∷ (0xa1, 0x8e) ∷ []; writes = [] })
      ≡ some ports)
    × (ports.answers ≡ [])
    × (take_writes master_command master_data ports.writes halfway
        ≡ record { stage = working; vector = 0x20; cascade = 4; mode = 1; mask = 0xb8 })
    × (take_writes slave_command slave_data ports.writes at_work
        ≡ record { stage = working; vector = 0x28; cascade = 2; mode = 1; mask = 0x8e })
initialize_pic_lem_example = initialize_pic_lem 0x20 0x28 0xb8 0x8e [] halfway at_work
