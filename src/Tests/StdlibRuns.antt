-- ===== src/Tests/StdlibRuns.antt =====
-- Runs of the library of the user programs.
use asif_os.Prelude.{ℕ, ◌≡◌, arith, true, some, List, [], ◌∷◌, replicate, length}
use asif_os.Prelude.Int.{negsuc}
use asif_os.Kern.Str.{text_at}
use asif_os.Stdlib.Render.{Part, plain, an_int, a_str}
use asif_os.Stdlib.Readline.{Reading, readline}
use asif_os.Stdlib.Line.{screen, edit}
use asif_os.Stdlib.Edited.{readline-edit}

abbrev no_bytes : List ℕ
no_bytes = replicate 14 7

-- n=%d of %s!
abbrev parts : List Part
parts = plain 110 ∷ plain 61 ∷ an_int (negsuc 6) ∷ plain 32 ∷ a_str (97 ∷ 98 ∷ []) ∷ []

-- The keys `a`, `b`, backspace, `c` and return.
readline-edit_example :
    (s : Reading) × (readline (97 ∷ 98 ∷ 8 ∷ 99 ∷ 13 ∷ []) (replicate 4 7) 4 true ≡ some s)
    × (s.ended ≡ true)
    × (s.ended ≡ true → text_at s.buf ≡ 97 ∷ 99 ∷ [])
    × (screen (35 ∷ []) s.requests ≡ 35 ∷ 97 ∷ 99 ∷ [])
    × (length s.buf ≡ 4)
unfolding edit
readline-edit_example =
    readline-edit (97 ∷ 98 ∷ 8 ∷ 99 ∷ 13 ∷ []) (replicate 4 7) (35 ∷ []) 4 (omega arith)
      (omega arith)
      (
        λ e. omega arith,
        (λ e. omega arith, (λ e. omega arith, (λ e. omega arith, (λ e. omega arith, tt)))),
      )
