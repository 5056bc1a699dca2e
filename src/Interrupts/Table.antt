-- ===== src/Interrupts/Table.antt =====
-- The interrupt descriptor table of src/kernel/interrupt/{idt.c, interrupts.c}, read the way the
-- processor reads it.
use asif_os.Prelude.{
  subst, ℕ, zero, suc, ◌+◌, ◌*◌, ◌^◌, ◌≤◌, ◌<◌, ◌≡◌, ◌≢◌, refl, sym, ap, ◌∙◌, none, some, List,
  arith, length, get_or, set, length-set, get_or-set_self, get_or-set_ne, store-set, replicate,
  ℕ_discrete,
}
use asif_os.Prelude.Bits.{bit_and_mask}
use asif_os.Interrupts.{
  IdtEntry, make_entry, add_entry, add_entries, interrupt_init, total_interrupts, trap_gate,
  interrupt_gate, code_selector,
}

-- The address that the processor jumps to.
abbrev pub gate_address : IdtEntry → ℕ
gate_address entry = entry.base_low + entry.base_high * 2 ^ 16

-- A gate that is present and that user code may call, of the given type, in the kernel's segment.
abbrev pub IsGate : IdtEntry → ℕ → Type 0
IsGate entry type = (entry.flags ≡ 0xe0 + type) × (entry.selector ≡ code_selector)

gate_address-make_entry :
    (type address : ℕ) → address < 2 ^ 32 → gate_address (make_entry type address) ≡ address
unfolding make_entry
gate_address-make_entry type address lt = omega (arith, bit_and_mask 16 address)

interrupt_gate_lem : (address : ℕ) → IsGate (make_entry interrupt_gate address) interrupt_gate
unfolding make_entry
interrupt_gate_lem address = (refl, refl)

trap_gate_lem : (address : ℕ) → IsGate (make_entry trap_gate address) trap_gate
unfolding make_entry
trap_gate_lem address = (refl, refl)

abbrev pub no_entry : IdtEntry
no_entry = record { base_low = 0; selector = 0; reserved = 0; flags = 0; base_high = 0 }

module _ (wrapper_entry : ℕ → ℕ) (isr80h_wrapper : ℕ) where
  add_entries_lem :
      (n i : ℕ) (idt : List IdtEntry)
      → i + n ≤ length idt
      → (idt' : List IdtEntry) × (add_entries wrapper_entry isr80h_wrapper idt i n ≡ some idt')
        × (length idt' ≡ length idt)
        × ((j : ℕ) → j < i → get_or idt' j no_entry ≡ get_or idt j no_entry)
        × ((j : ℕ)
            → i ≤ j
            → j < i + n
            → get_or idt' j no_entry ≡ make_entry trap_gate (wrapper_entry j))
  unfolding add_entries add_entry
  add_entries_lem zero i idt le = (idt, refl, refl, λ j lt. refl, λ j lo hi. absurd (omega arith))
  add_entries_lem (suc n) i idt le =
      let entry = make_entry trap_gate (wrapper_entry i) in
      let written = store-set idt i entry (omega arith) in
      let len = length-set idt i entry in
      let (idt', done, l, below, above) =
        add_entries_lem n (i + 1) (set idt i entry) (omega (arith, len)) in
      (
        idt',
        rw written done,
        l ∙ len,
        λ j lt. below j (omega arith) ∙ get_or-set_ne idt i j entry no_entry (λ e. omega arith),
        λ j lo hi. elim (ℕ_discrete j i) [
          | yes here ↦
              rw here (below i (omega arith) ∙ get_or-set_self idt i entry no_entry (omega arith))
          | no later ↦ above j (omega arith) (omega arith)
        ],
      )

  -- `interrupt_init` fills the table of 512 entries: interrupt 0x80 goes to the wrapper of the
  -- kernel commands through an interrupt gate, every other one to its own wrapper through a trap
  -- gate; no callback is registered.
  pub interrupt_init_lem :
      {Callback : Type 0} (idt : List IdtEntry)
      → length idt ≡ total_interrupts
      → ((i : ℕ) → wrapper_entry i < 2 ^ 32)
      → isr80h_wrapper < 2 ^ 32
      → (idt' : List IdtEntry) × (interrupt_init wrapper_entry isr80h_wrapper {Callback = Callback}
            idt
          ≡ some (replicate total_interrupts none, idt'))
        × (length idt' ≡ total_interrupts)
        × (gate_address (get_or idt' 0x80 no_entry) ≡ isr80h_wrapper)
        × IsGate (get_or idt' 0x80 no_entry) interrupt_gate
        × ((i : ℕ)
            → i < total_interrupts
            → i ≢ 0x80
            → (gate_address (get_or idt' i no_entry) ≡ wrapper_entry i)
              × IsGate (get_or idt' i no_entry) trap_gate)
  unfolding interrupt_init add_entry
  interrupt_init_lem idt e wrapper_in isr80h_in =
      let (idt1, filled, l, _, above) = add_entries_lem total_interrupts 0 idt (omega arith) in
      let entry = make_entry interrupt_gate isr80h_wrapper in
      let here = get_or-set_self idt1 0x80 entry no_entry (omega arith) in
      (
        set idt1 0x80 entry,
        rw (filled, store-set idt1 0x80 entry (omega arith)) refl,
        length-set idt1 0x80 entry ∙ l ∙ e,
        ap gate_address here ∙ gate_address-make_entry interrupt_gate isr80h_wrapper isr80h_in,
        subst (λ gate. IsGate gate interrupt_gate) (sym here) (interrupt_gate_lem isr80h_wrapper),
        λ i lt ne.
            let there =
              get_or-set_ne idt1 0x80 i entry no_entry (λ same. ne (sym same))
              ∙ above i (omega arith) (omega arith) in
            (
              ap gate_address there
                  ∙ gate_address-make_entry trap_gate (wrapper_entry i) (wrapper_in i),
              subst (λ gate. IsGate gate trap_gate) (sym there) (trap_gate_lem (wrapper_entry i)),
            ),
      )
