-- ===== src/Stdlib/Decimal.antt =====
-- The text that `itoa` of programs/stdlib/src/stdio.c makes of a number.
use asif_os.Prelude.{
  ℕ, zero, suc, ◌+◌, ◌-◌, ◌*◌, ◌%◌, ◌/◌, ◌^◌, ◌≤◌, ◌<◌, ◌≡◌, ◌≢◌, refl, sym, ap, ◌∙◌, arith, some,
  none, Option, leb, ◌&&◌, true, List, [], ◌∷◌, ◌==◌, if◌then◌else◌, ◌>>=◌, set, store-set,
  length-set, drop, length, pick_then, pick_else, ℕ_discrete,
}
use asif_os.Prelude.Int.{ℤ, pos, negsuc}
use asif_os.Kern.Str.{text_at}
use asif_os.Stdlib.Itoa.{put_front, digits_loop}

-- The number that a text of digits spells behind the number `n`; other characters are no number.
unfoldable pub read_digits : ℕ → List ℕ → Option ℕ
read_digits n [] = some n
read_digits n (ch ∷ text) =
    let rest = read_digits (n * 10 + (ch - 48)) text in
    if leb 48 ch && leb ch 57 then rest else none

-- The number of a text of at least one digit, with or without a sign in front.
abbrev pub read_negative : List ℕ → Option ℤ
read_negative [] = none
read_negative (ch ∷ text) = read_digits 0 (ch ∷ text) >>= λ n. some (negsuc (n - 1))

abbrev pub read_int : List ℕ → Option ℤ
read_int [] = none
read_int (ch ∷ text) =
    if ch == 45 then read_negative text else (read_digits 0 (ch ∷ text) >>= λ n. some (pos n))

pub drop-set :
    (mem : List ℕ) (i v : ℕ) → i < length mem → drop i (set mem i v) ≡ v ∷ drop (suc i) mem
drop-set [] i v lt = absurd (omega arith)
drop-set (x ∷ mem) zero v lt = refl
drop-set (x ∷ mem) (suc i) v lt = drop-set mem i v (omega arith)

pub put_front_lem :
    (loc : ℕ) (mem : List ℕ) (ch : ℕ)
    → 0 < loc
    → loc ≤ length mem
    → (mem' : List ℕ) × (put_front (loc, mem) ch ≡ some (loc - 1, mem'))
      × (length mem' ≡ length mem)
      × (drop (loc - 1) mem' ≡ ch ∷ drop loc mem)
unfolding put_front
put_front_lem zero mem ch room le = absurd (omega arith)
put_front_lem (suc loc) mem ch room le =
    let back : suc loc - 1 ≡ loc = omega arith in
    rw back (
      set mem loc ch,
      ap (λ m. m >>= λ mem'. some (loc, mem')) (store-set mem loc ch (omega arith)),
      length-set mem loc ch,
      drop-set mem loc ch (omega arith),
    )

-- The digits of a number in front of a text, most significant first; 0 has none.
unfoldable pub spell : (fuel n : ℕ) → List ℕ → List ℕ
spell zero n text = text
spell (suc fuel) n text =
    let more = spell fuel (n / 10) ((n % 10 + 48) ∷ text) in if n == 0 then text else more

pub read_digits-end : (n : ℕ) → read_digits n [] ≡ some n
unfolding read_digits
read_digits-end n = refl

digit_next :
    (m n : ℕ) (text : List ℕ)
    → m * 10 + n % 10 ≡ n
    → read_digits m ((n % 10 + 48) ∷ text) ≡ read_digits n text
unfolding read_digits
digit_next m n text e =
    let shift : m * 10 + (n % 10 + 48 - 48) ≡ n = omega arith in
    let low : leb 48 (n % 10 + 48) ≡ true = ground arith in
    let high : leb (n % 10 + 48) 57 ≡ true = ground arith in rw (low, high, shift) refl

pub read_digits-spell :
    (fuel n : ℕ) (text : List ℕ)
    → n < 10 ^ fuel
    → read_digits 0 (spell fuel n text) ≡ read_digits n text
unfolding spell read_digits
read_digits-spell zero n text lt = ap (λ n. read_digits n text) (omega arith)
read_digits-spell (suc fuel) n text lt = elim (ℕ_discrete n 0) [
  | yes none_left ↦
      ap (read_digits 0) (pick_then none_left _ _) ∙ ap (λ n. read_digits n text) (sym none_left)
  | no some_left ↦
      ap (read_digits 0) (pick_else some_left _ _)
      ∙ read_digits-spell fuel (n / 10) ((n % 10 + 48) ∷ text) (omega arith)
      ∙ digit_next (n / 10) n text (omega arith)
]

digit_ne : (n : ℕ) → n % 10 + 48 ≢ 0
digit_ne n e = omega arith

pub text_at-spell :
    (fuel n : ℕ) (bytes : List ℕ) → text_at (spell fuel n bytes) ≡ spell fuel n (text_at bytes)
unfolding spell text_at
text_at-spell zero n bytes = refl
text_at-spell (suc fuel) n bytes = elim (ℕ_discrete n 0) [
  | yes none_left ↦ ap text_at (pick_then none_left _ _) ∙ sym (pick_then none_left _ _)
  | no some_left ↦
      ap text_at (pick_else some_left _ _)
      ∙ text_at-spell fuel (n / 10) ((n % 10 + 48) ∷ bytes)
      ∙ ap (spell fuel (n / 10)) (pick_else (digit_ne n) _ _)
      ∙ sym (pick_else some_left _ _)
]

-- The loop spells its number in front of what stands at its index.
pub digits_loop_lem :
    (fuel n loc : ℕ) (mem : List ℕ)
    → n < 10 ^ fuel
    → fuel ≤ loc
    → loc ≤ length mem
    → (loc' : ℕ) × (mem' : List ℕ) × (digits_loop (suc fuel) n (loc, mem) ≡ some (loc', mem'))
      × (length mem' ≡ length mem)
      × (loc ≤ loc' + fuel)
      × (loc' ≤ loc)
      × (drop loc' mem' ≡ spell fuel n (drop loc mem))
unfolding digits_loop spell
digits_loop_lem zero n loc mem lt room le =
    let none_left : n ≡ 0 = omega arith in
    (loc, mem, pick_then none_left _ _, refl, omega arith, omega arith, refl)
digits_loop_lem (suc fuel) n loc mem lt room le = elim (ℕ_discrete n 0) [
  | yes none_left ↦ (
    loc,
    mem,
    pick_then none_left _ _,
    refl,
    omega arith,
    omega arith,
    sym (pick_then none_left _ _),
  )
  | no some_left ↦
      let (mem1, written, len, there) = put_front_lem loc mem (n % 10 + 48) (omega arith) le in
      let (loc', mem', run, len', near, under, spelled) =
        digits_loop_lem fuel (n / 10) (loc - 1) mem1 (omega arith) (omega arith)
          (omega (arith, len)) in
      (
        loc',
        mem',
        pick_else some_left _ _ ∙ ap (λ m. m >>= digits_loop (suc fuel) (n / 10)) written ∙ run,
        len' ∙ len,
        omega (arith, near),
        omega (arith, under),
        spelled ∙ ap (spell fuel (n / 10)) there ∙ sym (pick_else some_left _ _),
      )
]
