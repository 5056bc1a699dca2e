-- ===== src/Stdlib/Printf.antt =====
-- `printf` of programs/stdlib/src/stdio.c. The arguments are what the caller has pushed, in order; one
-- that is missing or of another type is a fault (`none`), as is a `%` at the end of the format: the loop
-- reads on behind the NUL.
use asif_os.Prelude.{
  ℕ, ◌+◌, Bool, true, false, Option, none, some, List, [], ◌∷◌, ◌++◌, ◌==◌, if◌then◌else◌, ◌>>=◌,
}
use asif_os.Prelude.Int.{ℤ}
use asif_os.Stdlib.{Request, print, put, strlen}
use asif_os.Stdlib.Itoa.{itoa, text_from}

pub data Arg : Type 0 where
  int : ℤ → Arg
  str : List ℕ → Arg

-- The requests in order, the bytes of `itoa`, and `count`.
pub record Printed : Type 0 where
  pub requests : List Request
  pub priv_mem : List ℕ
  pub count : ℕ

-- A character of the format, and the text of an argument.
abbrev pub add_char : Printed → ℕ → Printed
add_char s ch = record s { requests = s.requests ++ (put ch ∷ []); count = s.count + 1 }

abbrev pub add_text : Printed → List ℕ → Printed
add_text s text = record s {
  requests = s.requests ++ (print text ∷ []);
  count = s.count + strlen text;
}

-- The case 's' of the `switch`, and the case 'd', with the arguments behind theirs.
abbrev pub print_str : Printed → List Arg → Option (Printed × List Arg)
print_str s [] = none
print_str s (int n ∷ args) = none
print_str s (str text ∷ args) = some (add_text s text, args)

abbrev pub print_int : Printed → List Arg → Option (Printed × List Arg)
print_int s [] = none
print_int s (str text ∷ args) = none
print_int s (int n ∷ args) =
    itoa n s.priv_mem >>= λ at. some (add_text (record s { priv_mem = at.1 }) (text_from at), args)

-- The `switch`: other characters print nothing.
abbrev pub convert : Printed → (ch : ℕ) → List Arg → Option (Printed × List Arg)
convert s ch args =
    let as_int = print_int s args in
    let as_str = print_str s args in
    if ch == 0x73 then as_str else if ch == 0x64 then as_int else some (s, args)

-- The loop of `printf`; the flag is set behind a `%`.
unfoldable pub printf_loop : Bool → (format : List ℕ) → Printed → List Arg → Option Printed
printf_loop false [] s args = some s
printf_loop true [] s args = none
printf_loop false (ch ∷ format) s args =
    let plain = printf_loop false format (add_char s ch) args in
    let conversion = printf_loop true format s args in if ch == 0x25 then conversion else plain
printf_loop true (ch ∷ format) s args =
    convert s ch args >>= λ (s', args'). printf_loop false format s' args'

-- `printf`; the answer is the `count`.
unfoldable pub printf : (priv_mem format : List ℕ) → List Arg → Option Printed
unfolding printf_loop
printf priv_mem format args =
    printf_loop false format (record { requests = []; priv_mem = priv_mem; count = 0 }) args
