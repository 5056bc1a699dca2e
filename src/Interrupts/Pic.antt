-- ===== src/Interrupts/Pic.antt =====
-- `initialize_pic` of src/kernel/interrupt/pic.c over the ports, and the two controllers that it sets up.
use asif_os.Prelude.{ℕ, ◌≡◌, refl, Option, some, List, [], ◌∷◌, ◌==◌, if◌then◌else◌, ◌>>=◌}
use asif_os.Io.{Ports, inb, outb}

-- PICM_COMMAND_PORT, PICM_DATA_PORT, PICS_COMMAND_PORT and PICS_DATA_PORT
abbrev pub master_command : ℕ
master_command = 0x20

abbrev pub master_data : ℕ
master_data = 0x21

abbrev pub slave_command : ℕ
slave_command = 0xa0

abbrev pub slave_data : ℕ
slave_data = 0xa1

-- `outb` and `io_wait`
abbrev pub out_wait : (port value : ℕ) → Ports → Ports
out_wait port value ports = outb 0x80 0 (outb port value ports)

-- `initialize_pic` behind its reads of the two masks.
abbrev pub initialize_words :
    (master_offset slave_offset master_mask slave_mask : ℕ) → Ports → Ports
initialize_words master_offset slave_offset master_mask slave_mask ports =
    let started = out_wait slave_command 0x11 (out_wait master_command 0x11 ports) in
    let offsets = out_wait slave_data slave_offset (out_wait master_data master_offset started) in
    let cascaded = out_wait slave_data 2 (out_wait master_data 4 offsets) in
    let moded = out_wait slave_data 1 (out_wait master_data 1 cascaded) in
    out_wait slave_data slave_mask (out_wait master_data master_mask moded)

-- `initialize_pic`
unfoldable pub initialize_pic : (master_offset slave_offset : ℕ) → Ports → Option Ports
initialize_pic master_offset slave_offset ports = inb master_data ports >>= λ (master_mask, ports₁).
    inb slave_data ports₁ >>= λ (slave_mask, ports₂).
    some (initialize_words master_offset slave_offset master_mask slave_mask ports₂)

-- An 8259 controller as its data sheet has it: behind a word that starts its initialisation it takes the
-- vector, the cascade and the mode at its data port, and every other byte there is its mask.
pub data Stage : Type 0 where
  working wants_vector wants_cascade wants_mode : Stage

pub record Controller : Type 0 where
  pub stage : Stage
  pub vector : ℕ
  pub cascade : ℕ
  pub mode : ℕ
  pub mask : ℕ

abbrev take_data : Stage → Controller → ℕ → Controller
take_data working c value = record c { mask = value }
take_data wants_vector c value = record c { vector = value; stage = wants_cascade }
take_data wants_cascade c value = record c { cascade = value; stage = wants_mode }
take_data wants_mode c value = record c { mode = value; stage = working }

unfoldable pub take_writes : (command data_port : ℕ) → List (ℕ × ℕ) → Controller → Controller
take_writes command data_port [] c = c
take_writes command data_port ((port, value) ∷ writes) c =
    let started = if value == 0x11 then record c { stage = wants_vector } else c in
    take_writes command data_port writes (
      if port == command
      then started
      else if port == data_port
      then take_data c.stage c value
      else c)

-- Whatever the two controllers were doing, after initialize_pic each of them works with its own vector
-- and the mask that it had been read with, the slave at the third line of the master, both in the mode
-- of the processor; other answers of the ports are left.
pub initialize_pic_lem :
    (master_offset slave_offset master_mask slave_mask : ℕ) (after : List (ℕ × ℕ))
    (master slave : Controller)
    → (ports : Ports) × (initialize_pic master_offset slave_offset (record {
      answers = (master_data, master_mask) ∷ (slave_data, slave_mask) ∷ after;
      writes = [];
    })
        ≡ some ports)
      × (ports.answers ≡ after)
      × (take_writes master_command master_data ports.writes master ≡ record {
        stage = working;
        vector = master_offset;
        cascade = 4;
        mode = 1;
        mask = master_mask;
      })
      × (take_writes slave_command slave_data ports.writes slave ≡ record {
        stage = working;
        vector = slave_offset;
        cascade = 2;
        mode = 1;
        mask = slave_mask;
      })
unfolding initialize_pic take_writes
initialize_pic_lem master_offset slave_offset master_mask slave_mask after master slave = (
  initialize_words master_offset slave_offset master_mask slave_mask
      (record { answers = after; writes = [] }),
  refl,
  refl,
  refl,
  refl,
)
