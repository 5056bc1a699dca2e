-- ===== src/Stdlib/Number.antt =====
-- `itoa` of programs/stdlib/src/stdio.c on the `int`s.
use asif_os.Prelude.{
  ℕ, zero, suc, ◌+◌, ◌-◌, ◌%◌, ◌/◌, ◌^◌, ◌≤◌, ◌<◌, ◌≡◌, ◌≢◌, refl, sym, ap, ◌∙◌, arith, some, List,
  [], ◌∷◌, ◌>>=◌, set, store-set, length-set, drop, length, pick_else, ℕ_discrete, Option, none,
  ltb, ltb_then, ltb_else, ◌++◌, append_assoc, append-nil, dec_lt, ◌==◌, if◌then◌else◌, ap₂,
}
use asif_os.Prelude.Int.{ℤ, pos, negsuc}
use asif_os.Kern.Str.{text_at}
use asif_os.Stdlib.Itoa.{put_front, digits_loop, itoa, itoa_fuel, text_from}
use asif_os.Stdlib.Decimal.{drop-set, put_front_lem, spell, text_at-spell, digits_loop_lem}

-- The digits of a number in decimal, most significant first; it has at most `fuel + 1` of them.
unfoldable pub numeral : (fuel n : ℕ) → List ℕ
numeral zero n = (n + 48) ∷ []
numeral (suc fuel) n =
    let front = numeral fuel (n / 10) in
    if ltb n 10 then (n + 48) ∷ [] else front ++ ((n % 10 + 48) ∷ [])

-- The text of an `int`: a sign and its digits, and no text at all for 0.
unfoldable pub decimal : ℤ → List ℕ
unfolding numeral
decimal (pos n) = if n == 0 then [] else numeral 9 n
decimal (negsuc n) = 45 ∷ numeral 9 (n + 1)

-- What can be read of the text of an `int`: nothing of that of 0.
abbrev pub legible : ℤ → Option ℤ
legible (pos n) = if n == 0 then none else some (pos n)
legible (negsuc n) = some (negsuc n)

-- An `int` that has a negation.
abbrev pub magnitude : ℤ → ℕ
magnitude (pos n) = n
magnitude (negsuc n) = n + 1

spell_zero : (fuel : ℕ) (text : List ℕ) → spell fuel 0 text ≡ text
unfolding spell
spell_zero zero text = refl
spell_zero (suc fuel) text = refl

-- The loop's digits are those of the number, when it is not 0.
spell-numeral :
    (fuel n : ℕ) (text : List ℕ)
    → n ≢ 0
    → n < 10 ^ suc fuel
    → spell (suc fuel) n text ≡ numeral fuel n ++ text
unfolding spell numeral
spell-numeral zero n text some_left lt =
    let digit : n % 10 ≡ n = omega arith in
    pick_else some_left _ _ ∙ ap (λ d. (d + 48) ∷ text) digit
spell-numeral (suc fuel) n text some_left lt = elim (dec_lt n 10) [
  | yes last ↦
      let digit : n % 10 ≡ n = omega arith in
      let none_left : n / 10 ≡ 0 = omega arith in
      pick_else some_left _ _
      ∙ ap₂ (λ m d. spell (suc fuel) m ((d + 48) ∷ text)) none_left digit
      ∙ spell_zero (suc fuel) ((n + 48) ∷ text)
      ∙ ap (λ t. t ++ text)
          (sym (ltb_then last ((n + 48) ∷ []) (numeral fuel (n / 10) ++ ((n % 10 + 48) ∷ []))))
  | no more ↦
      pick_else some_left _ _
      ∙ spell-numeral fuel (n / 10) ((n % 10 + 48) ∷ text) (λ e. omega arith) (omega arith)
      ∙ sym (append_assoc (numeral fuel (n / 10)) ((n % 10 + 48) ∷ []) text)
      ∙ ap (λ t. t ++ text)
          (sym (
            ltb_else {i = n} {k = 10} (omega arith) ((n + 48) ∷ [])
              (numeral fuel (n / 10) ++ ((n % 10 + 48) ∷ []))))
]

-- A sign and the digits of the loop.
abbrev spelled : ℤ → List ℕ
spelled (pos n) = spell 10 n []
spelled (negsuc n) = 45 ∷ spell 10 (n + 1) []

spelled-decimal : (n : ℤ) → magnitude n < 2 ^ 31 → spelled n ≡ decimal n
unfolding decimal
spelled-decimal (pos n) lt = elim (ℕ_discrete n 0) [
  | yes none_left ↦ rw none_left (spell_zero 10 [])
  | no some_left ↦
      spell-numeral 9 n [] some_left (omega arith)
      ∙ append-nil (numeral 9 n)
      ∙ sym (pick_else some_left [] (numeral 9 n))
]
spelled-decimal (negsuc n) lt =
    ap (◌∷◌ 45)
      (spell-numeral 9 (n + 1) [] (λ e. omega arith) (omega arith) ∙ append-nil (numeral 9 (n + 1)))

-- The text at the end of the loop over an ended memory.
ended :
    (n loc : ℕ) (mem mem' : List ℕ)
    → length mem ≡ 14
    → drop loc mem' ≡ spell 10 n (drop 13 (set mem 13 0))
    → text_at (drop loc mem') ≡ spell 10 n []
unfolding text_at
ended n loc mem mem' len spelled =
    ap text_at spelled
    ∙ text_at-spell 10 n (drop 13 (set mem 13 0))
    ∙ ap (λ bytes. spell 10 n (text_at bytes)) (drop-set mem 13 0 (omega (arith, len)))

-- `itoa` writes the text of its number.
pub itoa_lem :
    (n : ℤ) (mem : List ℕ)
    → magnitude n < 2 ^ 31
    → length mem ≡ 14
    → (loc : ℕ) × (mem' : List ℕ) × (itoa n mem ≡ some (loc, mem'))
      × (length mem' ≡ 14)
      × (2 ≤ loc)
      × (text_from (loc, mem') ≡ decimal n)
unfolding itoa text_at
itoa_lem (pos n) mem lt len =
    let end : List ℕ = set mem 13 0 in
    let (loc, mem', run, len', near, under, written_text) =
      digits_loop_lem 10 n 13 end (omega (arith, lt)) (omega arith)
        (omega (arith, len, length-set mem 13 0)) in
    (
      loc,
      mem',
      ap (λ m. m >>= λ mem'. digits_loop itoa_fuel n (13, mem'))
            (store-set mem 13 0 (omega (arith, len)))
          ∙ run,
      len' ∙ length-set mem 13 0 ∙ len,
      omega (arith, near),
      ended n loc mem mem' len written_text ∙ spelled-decimal (pos n) lt,
    )
itoa_lem (negsuc n) mem lt len =
    let end : List ℕ = set mem 13 0 in
    let (loc, mem1, run, len1, near, under, written_text) =
      digits_loop_lem 10 (n + 1) 13 end (omega (arith, lt)) (omega arith)
        (omega (arith, len, length-set mem 13 0)) in
    let (mem', written, len', there) =
      put_front_lem loc mem1 45 (omega (arith, near))
        (omega (arith, under, len1, len, length-set mem 13 0)) in
    (
      loc - 1,
      mem',
      ground (arith, lt)
          ∙ ap
              (λ m.
                (m >>= λ mem'. digits_loop itoa_fuel (n + 1) (13, mem')) >>= λ at. put_front at 45)
              (store-set mem 13 0 (omega (arith, len)))
          ∙ ap (λ m. m >>= λ at. put_front at 45) run
          ∙ written,
      len' ∙ len1 ∙ length-set mem 13 0 ∙ len,
      omega (arith, near),
      ap text_at there
          ∙ ap (λ t. 45 ∷ t) (ended (n + 1) loc mem mem1 len written_text)
          ∙ spelled-decimal (negsuc n) lt,
    )
