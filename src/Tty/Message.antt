-- ===== src/Tty/Message.antt =====
-- The shape of the cursor in src/kernel/tty.c, `tty_init`, and the messages of src/kernel/kernel.c.
use asif_os.Prelude.{ℕ, Option, some, List, [], ◌∷◌, ◌>>=◌, bit_and, bit_or}
use asif_os.Io.{Ports, inb, outb}
use asif_os.Tty.{Tty, tty_white, clean, puts}

-- One line of the cursor's shape: the index, and the value with some of its bits kept.
abbrev pub cursor_line : (index kept line : ℕ) → Ports → Option Ports
cursor_line index kept line ports = inb 0x3d5 (outb 0x3d4 index ports) >>= λ (value, ports').
    some (outb 0x3d5 (bit_or (bit_and value kept) line) ports')

-- `tty_enable_cursor`
unfoldable pub enable_cursor : (cursor_start cursor_end : ℕ) → Ports → Option Ports
enable_cursor cursor_start cursor_end ports =
    cursor_line 0x0a 0xc0 cursor_start ports >>= cursor_line 0x0b 0xe0 cursor_end

-- `tty_disable_cursor`
unfoldable pub disable_cursor : Ports → Ports
disable_cursor ports = outb 0x3d5 0x20 (outb 0x3d4 0x0a ports)

-- `tty_init`
abbrev pub tty_init : Tty → Option Tty
tty_init t = clean t

-- TTY_GREEN and TTY_RED
abbrev pub tty_green : ℕ
tty_green = 2

abbrev pub tty_red : ℕ
tty_red = 4

-- `kernel_print_ok`: `[ OK ]: `, the message, and a newline.
unfoldable pub kernel_print_ok : List ℕ → Tty → Option Tty
kernel_print_ok msg t = puts t (0x5b ∷ 0x20 ∷ []) tty_white >>= λ t₁.
    puts t₁ (0x4f ∷ 0x4b ∷ []) tty_green >>= λ t₂.
    puts t₂ (0x20 ∷ 0x5d ∷ 0x3a ∷ 0x20 ∷ []) tty_white >>= λ t₃.
    puts t₃ msg tty_white >>= λ t₄. puts t₄ (0x0a ∷ []) tty_white

-- `kernel_panic`: the screen that stands when the processor halts.
unfoldable pub kernel_panic : List ℕ → Tty → Option Tty
kernel_panic msg t =
    puts t
      (0x4b ∷ 0x65 ∷ 0x72 ∷ 0x6e ∷ 0x65 ∷ 0x6c ∷ 0x20 ∷ 0x70 ∷ 0x61 ∷ 0x6e ∷ 0x69 ∷ 0x63 ∷ 0x20
        ∷ 0x3a ∷ 0x20 ∷ [])
      tty_red
    >>= λ t'. puts t' msg tty_white
