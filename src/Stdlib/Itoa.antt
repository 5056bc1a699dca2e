-- ===== src/Stdlib/Itoa.antt =====
-- `itoa` of programs/stdlib/src/stdio.c: it writes from the end of its 14 bytes to their front. A write
-- in front of them is a fault (`none`).
use asif_os.Prelude.{
  ℕ, zero, suc, ◌+◌, ◌%◌, ◌/◌, ◌^◌, Option, none, some, List, ◌==◌, if◌then◌else◌, ◌>>=◌, leb,
  store, drop,
}
use asif_os.Prelude.Int.{ℤ, pos, negsuc}
use asif_os.Kern.Str.{text_at}

-- `priv_mem[--loc] = ch`
unfoldable pub put_front : ℕ × List ℕ → (ch : ℕ) → Option (ℕ × List ℕ)
put_front (zero, mem) ch = none
put_front (suc loc, mem) ch = store mem loc ch >>= λ mem'. some (loc, mem')

-- The loop, on fuel.
unfoldable pub digits_loop : (fuel n : ℕ) → ℕ × List ℕ → Option (ℕ × List ℕ)
unfolding put_front
digits_loop zero n at = none
digits_loop (suc fuel) n at =
    let rest = put_front at (n % 10 + 48) >>= digits_loop fuel (n / 10) in
    if n == 0 then some at else rest

-- The digits that an `int` has, and the last test of the loop.
abbrev pub itoa_fuel : ℕ
itoa_fuel = 11

-- `itoa` into its memory: the index that it answers, and the memory. The negation of the least `int` has no
-- value.
unfoldable pub itoa : ℤ → List ℕ → Option (ℕ × List ℕ)
unfolding digits_loop
itoa (pos n) mem = store mem 13 0 >>= λ mem'. digits_loop itoa_fuel n (13, mem')
itoa (negsuc n) mem =
    let digits = store mem 13 0 >>= λ mem'. digits_loop itoa_fuel (n + 1) (13, mem') in
    if leb (2 ^ 31) (n + 1) then none else (digits >>= λ at. put_front at 45)

-- The text at the index.
abbrev pub text_from : ℕ × List ℕ → List ℕ
text_from (loc, mem) = text_at (drop loc mem)
