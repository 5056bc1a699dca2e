-- ===== src/Keyboard/Backspace.antt =====
-- `keyboard_backspace` moves the tail back and leaves the size: it takes no event out.
use asif_os.Prelude.{ℕ, zero, suc, ◌+◌, ◌-◌, ◌%◌, ◌≡◌, ◌<◌, refl, arith}
use asif_os.Kern.Status.{all_ok}
use asif_os.Keyboard.{max_buffer, KeyboardBuffer, decrement, get_circular, backspace}
use asif_os.Keyboard.Refine.{IsValid, contents}

get_circular-decrement :
    (tail : ℕ)
    → tail < max_buffer
    → get_circular (decrement tail) ≡ (tail + max_buffer - 1) % max_buffer
unfolding get_circular
get_circular-decrement zero lt = refl
get_circular-decrement (suc n) lt = omega arith

-- On a buffer that holds events `keyboard_backspace` reports success, but the events that
-- `keyboard_pop` will return stay all the same, and the buffer is valid no more: its next event
-- goes to a slot that is in use.
pub backspace_keeps :
    (b : KeyboardBuffer)
    → IsValid b
    → 0 < b.size
    → ((backspace b).0 ≡ all_ok)
      × (contents (backspace b).1 ≡ contents b)
      × ¬ IsValid (backspace b).1
unfolding backspace
backspace_keeps b v pos = (
  ground arith,
  ground arith,
  λ w. ground (arith, get_circular-decrement b.tail (omega arith), w.tail_at),
)
