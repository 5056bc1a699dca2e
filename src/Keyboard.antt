-- ===== src/Keyboard.antt =====
-- src/kernel/keyboard/keyboard.c: the circular event buffer of a process.
-- The functions that the source applies to the buffer of the current process take that
-- buffer as their argument; an access outside of the buffer's array is a fault (`none`).
pub mod Queue
pub mod Ps2
pub mod Ack
pub mod Refine
pub mod Backspace
pub mod Drivers
use asif_os.Prelude.{
  ℕ, zero, suc, ◌+◌, ◌-◌, ◌%◌, Option, none, some, List, [], ◌∷◌, ◌==◌, if◌then◌else◌, ◌>>=◌, store,
  load,
}
use asif_os.Prelude.Int.{ℤ, pos, negsuc}
use asif_os.Kern.Status.{Status, all_ok, einvarg, enomem, eend}

-- NUTTLE_KEYBOARD_MAX_BUFFER
abbrev pub max_buffer : ℕ
max_buffer = 1024

-- `NuttleKeyboardBuffer`
pub record KeyboardBuffer : Type 0 where
  pub head : ℕ
  pub tail : ℕ
  pub size : ℕ
  pub buffer : List ℕ

-- `keyboard_init_buffer`
unfoldable pub init_buffer : KeyboardBuffer → KeyboardBuffer
init_buffer buf = record buf { head = 0; tail = 0; size = 0 }

-- `keyboard_get_circular`: the remainder of C takes the sign of its argument.
unfoldable pub get_circular : ℤ → ℕ
get_circular (pos n) = n % max_buffer
get_circular (negsuc n) = if (n + 1) % max_buffer == 0 then 0 else max_buffer - (n + 1) % max_buffer

-- `n - 1` of an `int`.
abbrev pub decrement : ℕ → ℤ
decrement zero = negsuc 0
decrement (suc n) = pos n

-- `keyboard_push`
unfoldable pub push : KeyboardBuffer → ℕ → Option (Status × KeyboardBuffer)
unfolding get_circular
push buf event =
    if event == 0
    then some (einvarg, buf)
    else if buf.size == max_buffer
    then some (enomem, buf)
    else store buf.buffer buf.tail event >>= λ buffer. some (
      all_ok,
      record buf { tail = get_circular (pos (buf.tail + 1)); size = buf.size + 1; buffer = buffer },
    )

-- `keyboard_backspace`
unfoldable pub backspace : KeyboardBuffer → Status × KeyboardBuffer
backspace buf =
    if buf.size == 0
    then (eend, buf)
    else (all_ok, record buf { tail = get_circular (decrement buf.tail) })

-- `keyboard_pop`; 0 is its answer to an empty buffer.
unfoldable pub pop : KeyboardBuffer → Option (ℕ × KeyboardBuffer)
unfolding get_circular
pop buf =
    if buf.size == 0
    then some (0, buf)
    else load buf.buffer buf.head >>= λ event.
        some (event, record buf { head = get_circular (pos (buf.head + 1)); size = buf.size - 1 })

-- What a driver and the programs ask of the buffer, in order, and what each call answers.
pub data Op : Type 0 where
  push_op : ℕ → Op
  pop_op : Op

pub data Reply : Type 0 where
  pushed : Status → Reply
  popped : ℕ → Reply

unfoldable pub run : KeyboardBuffer → List Op → Option (List Reply)
run buf [] = some []
run buf (push_op event ∷ ops) = do
  (status, buf') ← push buf event
  replies ← run buf' ops
  some (pushed status ∷ replies)
run buf (pop_op ∷ ops) = do
  (event, buf') ← pop buf
  replies ← run buf' ops
  some (popped event ∷ replies)
