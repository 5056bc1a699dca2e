-- ===== src/Tests/KeyboardRuns.antt =====
-- Runs of the event buffer of src/kernel/keyboard/keyboard.c.
use asif_os.Prelude.{ℕ, ◌≡◌, refl, arith, some, List, [], ◌∷◌, replicate, length-replicate}
use asif_os.Kern.Status.{all_ok, einvarg}
use asif_os.Keyboard.Queue
use asif_os.Keyboard.{
  max_buffer, KeyboardBuffer, init_buffer, backspace, run, Op, push_op, pop_op, pushed, popped,
}
use asif_os.Keyboard.Refine.{IsValid, contents, run_refines, init_buffer-IsValid}
use asif_os.Keyboard.Backspace.{backspace_keeps}

abbrev fresh : KeyboardBuffer
fresh = record { head = 7; tail = 7; size = 7; buffer = replicate max_buffer 0 }

-- Two keys, one of them taken, then an empty buffer.
abbrev keys : List Op
keys = push_op 97 ∷ push_op 0 ∷ push_op 98 ∷ pop_op ∷ pop_op ∷ pop_op ∷ []

keys_queue :
    Queue.run [] keys
    ≡ pushed all_ok ∷ pushed einvarg ∷ pushed all_ok ∷ popped 97 ∷ popped 98 ∷ popped 0 ∷ []
unfolding Queue.run Queue.push Queue.pop
keys_queue = refl

fresh-IsValid : IsValid (init_buffer fresh)
fresh-IsValid = (init_buffer-IsValid fresh (length-replicate {A = ℕ} max_buffer 0)).0

run_refines_example :
    run (init_buffer fresh) keys ≡ some (Queue.run (contents (init_buffer fresh)) keys)
run_refines_example = run_refines keys (init_buffer fresh) fresh-IsValid

abbrev pub one_key : KeyboardBuffer
one_key = record { head = 5; tail = 6; size = 1; buffer = replicate max_buffer 9 }

pub one_key-IsValid : IsValid one_key
one_key-IsValid = record {
  room = length-replicate {A = ℕ} max_buffer 9;
  head_in = omega arith;
  size_in = omega arith;
  tail_at = refl;
}

backspace_keeps_example :
    ((backspace one_key).0 ≡ all_ok)
    × (contents (backspace one_key).1 ≡ contents one_key)
    × ¬ IsValid (backspace one_key).1
backspace_keeps_example = backspace_keeps one_key one_key-IsValid (omega arith)
