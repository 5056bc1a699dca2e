-- ===== src/Keyboard/Ps2.antt =====
-- src/kernel/keyboard/ps2.c: the PS/2 keyboard. The buffer of the current process is an argument, and `sh_state` is `shift`.
use asif_os.Prelude.{
  ℕ, zero, suc, Bool, ◌&&◌, ◌||◌, Option, none, some, List, [], ◌∷◌, ◌==◌, leb, if◌then◌else◌,
  ◌>>=◌, bit_and, get_or,
}
use asif_os.Kern.Status.{Status, all_ok, eio, is_err}
use asif_os.Keyboard.{KeyboardBuffer, push}
use asif_os.Io.{Ports, inb, outb}

abbrev pub data_port : ℕ
data_port = 0x60

-- PS2_STATUS_PORT and PS2_COMMAND_PORT
abbrev pub command_port : ℕ
command_port = 0x64

abbrev pub acknowledged : ℕ
acknowledged = 0xfa

abbrev pub resend : ℕ
resend = 0xfe

-- `keyboard_scan_set`; `scan_code_size` is its size, 84.
abbrev pub scan_set : List ℕ
scan_set =
    0 ∷ 27 ∷ 49 ∷ 50 ∷ 51 ∷ 52 ∷ 53 ∷ 54 ∷ 55 ∷ 56 ∷ 57 ∷ 48 ∷ 45 ∷ 61 ∷ 8 ∷ 9 ∷ 113 ∷ 119 ∷ 101
    ∷ 114 ∷ 116 ∷ 121 ∷ 117 ∷ 105 ∷ 111 ∷ 112 ∷ 91 ∷ 93 ∷ 13 ∷ 17 ∷ 97 ∷ 115 ∷ 100 ∷ 102 ∷ 103 ∷ 104
    ∷ 106 ∷ 107 ∷ 108 ∷ 59 ∷ 39 ∷ 96 ∷ 16 ∷ 92 ∷ 122 ∷ 120 ∷ 99 ∷ 118 ∷ 98 ∷ 110 ∷ 109 ∷ 44 ∷ 46
    ∷ 47 ∷ 16 ∷ 42 ∷ 18 ∷ 32 ∷ 20 ∷ 112 ∷ 113 ∷ 114 ∷ 115 ∷ 116 ∷ 117 ∷ 118 ∷ 119 ∷ 120 ∷ 121 ∷ 55
    ∷ 56 ∷ 57 ∷ 45 ∷ 52 ∷ 53 ∷ 54 ∷ 43 ∷ 49 ∷ 50 ∷ 51 ∷ 48 ∷ 46 ∷ 122 ∷ 123 ∷ []

-- `keyboard_scan_set_sh`
abbrev pub scan_set_sh : List ℕ
scan_set_sh =
    0 ∷ 27 ∷ 33 ∷ 64 ∷ 35 ∷ 36 ∷ 37 ∷ 94 ∷ 38 ∷ 42 ∷ 40 ∷ 41 ∷ 95 ∷ 43 ∷ 8 ∷ 9 ∷ 81 ∷ 87 ∷ 69 ∷ 82
    ∷ 84 ∷ 89 ∷ 85 ∷ 73 ∷ 79 ∷ 80 ∷ 123 ∷ 125 ∷ 13 ∷ 17 ∷ 65 ∷ 83 ∷ 68 ∷ 70 ∷ 71 ∷ 72 ∷ 74 ∷ 75 ∷ 76
    ∷ 58 ∷ 34 ∷ 126 ∷ 16 ∷ 124 ∷ 90 ∷ 88 ∷ 67 ∷ 86 ∷ 66 ∷ 78 ∷ 77 ∷ 60 ∷ 62 ∷ 63 ∷ 16 ∷ 42 ∷ 18 ∷ 32
    ∷ 20 ∷ 112 ∷ 113 ∷ 114 ∷ 115 ∷ 116 ∷ 117 ∷ 118 ∷ 119 ∷ 120 ∷ 121 ∷ 0 ∷ 0 ∷ 0 ∷ 45 ∷ 0 ∷ 0 ∷ 0
    ∷ 43 ∷ 0 ∷ 0 ∷ 0 ∷ 0 ∷ 46 ∷ 122 ∷ 123 ∷ []

-- The end of `ps2_wait_for_ack` behind its loop.
abbrev pub last_ack : Ports → Option (Status × Ports)
last_ack ports = inb data_port ports >>= λ (byte, ports').
    some (if byte == acknowledged then all_ok else eio, ports')

-- The loop of `ps2_wait_for_ack`, `count` rounds before its end.
unfoldable pub ack_loop : ℕ → (command : ℕ) → Ports → Option (Status × Ports)
ack_loop zero command ports = last_ack ports
ack_loop (suc count) command ports = inb data_port ports >>= λ (byte, ports').
    let again = ack_loop count command (outb data_port command ports') in
    if byte == acknowledged
    then some (all_ok, ports')
    else if byte == resend
    then again
    else last_ack ports'

-- `ps2_wait_for_ack`
unfoldable pub wait_for_ack : (command : ℕ) → Ports → Option (Status × Ports)
unfolding ack_loop
wait_for_ack command ports = ack_loop 3 command ports

-- The loop of `ps2_keyboard_reset`.
unfoldable pub reset_loop : ℕ → Ports → Option (Status × Ports)
reset_loop zero ports = some (all_ok, ports)
reset_loop (suc count) ports = inb data_port ports >>= λ (byte, ports').
    let again = reset_loop count (outb data_port 0xff ports') in
    let next = reset_loop count ports' in
    if byte == 0xfc || byte == 0xfd
    then some (eio, ports')
    else if byte == resend
    then again
    else if byte == 0xaa
    then some (all_ok, ports')
    else next

-- `ps2_keyboard_reset`
unfoldable pub keyboard_reset : Ports → Option (Status × Ports)
unfolding reset_loop
keyboard_reset ports = reset_loop 3 (outb data_port 0xff ports)

-- The loop of `ps2_init` that empties the controller's buffer, with `fuel` rounds.
unfoldable pub flush : ℕ → Ports → Option Ports
flush zero ports = none
flush (suc fuel) ports = inb command_port ports >>= λ (status, ports').
    let rest = inb data_port ports' >>= λ (byte, ports''). flush fuel ports'' in
    if bit_and status 0x1 == 0 then some ports' else rest

-- The types of a PS/2 keyboard.
abbrev pub is_keyboard : (b1 b2 : ℕ) → Bool
is_keyboard b1 b2 =
    b1 == 0xab && (b2 == 0x85 || b2 == 0x86 || b2 == 0x41 || b2 == 0xc1 || b2 == 0x54)

-- An error of a step ends `ps2_init`.
abbrev pub or_out :
    Option (Status × Ports) → (Ports → Option (Status × Ports)) → Option (Status × Ports)
or_out step next =
    step >>= λ (res, ports). let rest = next ports in if is_err res then some (res, ports) else rest

-- A test of the controller, which answers with a byte.
abbrev pub controller_test : (command expected : ℕ) → Ports → Option (Status × Ports)
controller_test command expected ports =
    inb data_port (outb command_port command ports) >>= λ (byte, ports').
    some (if byte == expected then all_ok else eio, ports')

-- The two bytes of the device type. `io_wait` writes 0 to an unused port.
abbrev pub identify : Ports → Option (Status × Ports)
identify ports = inb data_port ports >>= λ (b1, ports').
    inb data_port (outb 0x80 0 ports') >>= λ (b2, ports'').
    some (if is_keyboard b1 b2 then all_ok else eio, ports'')

-- `ps2_init`, up to the registration of its handler.
unfoldable pub init : (fuel : ℕ) → Ports → Option (Status × Ports)
unfolding flush wait_for_ack keyboard_reset
init fuel ports = flush fuel (outb command_port 0xa7 (outb command_port 0xad ports)) >>= λ ports₁.
    or_out (controller_test 0xaa 0x55 ports₁) (λ ports₂.
      or_out (controller_test 0xab 0x00 ports₂) (λ ports₃.
        or_out (wait_for_ack 0xf5 (outb data_port 0xf5 (outb command_port 0xae ports₃))) (λ ports₄.
          or_out (wait_for_ack 0xf2 (outb data_port 0xf2 ports₄)) (λ ports₅.
            or_out (identify ports₅) (λ ports₆.
              or_out (keyboard_reset ports₆)
                (λ ports₇. some (all_ok, outb data_port 0xf4 ports₇)))))))

-- `ps2_keyboard_scancode_to_char`
unfoldable pub scancode_to_char : (shift : Bool) → (scancode : ℕ) → ℕ
scancode_to_char shift scancode =
    if leb 84 scancode then 0 else get_or (if shift then scan_set_sh else scan_set) scancode 0

-- `ps2_keyboard_interrupt_handler`: the event with its release flag is built and not used.
unfoldable pub interrupt_handler :
    (shift : Bool) → KeyboardBuffer → Ports → Option (KeyboardBuffer × Ports)
unfolding scancode_to_char
interrupt_handler shift buf ports = inb data_port ports >>= λ (scancode, ports').
    inb data_port ports' >>= λ (code, ports'').
    let ch = scancode_to_char shift scancode in
    let pushed = push buf ch >>= λ (res, buf'). some (buf', ports'') in
    if ch == 0 then some (buf, ports'') else pushed
