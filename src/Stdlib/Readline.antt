-- ===== src/Stdlib/Readline.antt =====
-- `asifos_terminal_readline` of programs/stdlib/src/asifos.c and `gets` of programs/stdlib/src/stdio.c.
-- `asifos_getkey` waits for a key and is assembly: its answers, the numbers of the keys in order, are an
-- argument. The `int` `max` is at least 1, and a write outside of the buffer is a fault (`none`).
use asif_os.Prelude.{
  ℕ, ◌+◌, ◌-◌, ◌%◌, ◌/◌, Bool, true, false, Option, none, some, List, [], ◌∷◌, ◌++◌, ◌==◌, ltb,
  if◌then◌else◌, ◌>>=◌, store,
}
use asif_os.Stdlib.{Request, put, remove}

-- The buffer, the requests in order, and whether the line is ended or waits for a key.
pub record Reading : Type 0 where
  pub buf : List ℕ
  pub requests : List Request
  pub ended : Bool

-- `buf[i] = '\0'`
abbrev pub end_line : Reading → ℕ → Option Reading
end_line s i = store s.buf i 0 >>= λ buf. some (record s { buf = buf; ended = true })

abbrev pub request_if : Bool → Request → Reading → Reading
request_if asked request s =
    if asked then record s { requests = s.requests ++ (request ∷ []) } else s

-- The loop from the index `i` on. A release event is a number above a byte.
unfoldable pub readline_loop :
    (keys : List ℕ) → (i max : ℕ) → (output : Bool) → Reading → Option Reading
readline_loop [] i max output s = if ltb i (max - 1) then some s else end_line s i
readline_loop (ev ∷ keys) i max output s =
    let release = readline_loop keys i max output s in
    let removed = readline_loop keys (i - 1) max output (request_if true remove s) in
    let stay = readline_loop keys i max output s in
    let stored = store s.buf i (ev % 256) >>= λ buf.
    readline_loop keys (i + 1) max output
      (request_if output (put (ev % 256)) (record s { buf = buf })) in
    if ltb i (max - 1)
    then if ltb 0 (ev / 256)
      then release
      else if ev % 256 == 13
      then end_line s i
      else if ev % 256 == 8
      then (if ltb 0 i then removed else stay)
      else stored
    else end_line s i

-- `asifos_terminal_readline`
unfoldable pub readline : (keys buf : List ℕ) → (max : ℕ) → (output : Bool) → Option Reading
unfolding readline_loop
readline keys buf max output =
    readline_loop keys 0 max output (record { buf = buf; requests = []; ended = false })

-- `gets`, with the pointer to the buffer; `none` of the result is the null pointer.
unfoldable pub gets :
    (keys : List ℕ) → (ptr : ℕ) → (buf : List ℕ) → (max : ℕ) → Option (Option Reading)
unfolding readline
gets keys ptr buf max =
    let line = readline keys buf max true >>= λ s. some (some s) in
    if ptr == 0 then some none else line
