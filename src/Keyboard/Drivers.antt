-- ===== src/Keyboard/Drivers.antt =====
-- The list of keyboards of src/kernel/keyboard/keyboard.c. A keyboard is its address, 0 is the null
-- pointer, and the field `next` is a function from addresses.
use asif_os.Prelude.{
  ℕ, zero, suc, Bool, true, not, ◌||◌, ◌≡◌, ◌≢◌, refl, sym, ap, ◌∙◌, subst, Option, none, some,
  List, [], ◌∷◌, ◌++◌, All, ◌==◌, if◌then◌else◌, ◌>>=◌, pick_then, pick_else, fun_ext, length,
  arith,
}
use asif_os.Kern.Status.{Status, all_ok, einvarg}
use asif_os.Task.Chain.{Apart, last_or}

-- `head`, `tail` and the keyboards in memory: the next one, and whether there is an `init`.
pub record Keyboards : Type 0 where
  pub next : ℕ → ℕ
  pub has_init : ℕ → Bool
  pub head : ℕ
  pub tail : ℕ

unfoldable pub link_next : (ℕ → ℕ) → (keyboard next : ℕ) → ℕ → ℕ
link_next nexts keyboard next at = if at == keyboard then next else nexts at

-- `keyboard_insert`
unfoldable pub insert : Keyboards → (keyboard : ℕ) → Status × Keyboards
insert s keyboard =
    if keyboard == 0 || not (s.has_init keyboard)
    then (einvarg, s)
    else if s.head == 0
    then (all_ok, record s { head = keyboard; tail = keyboard })
    else (all_ok, record s { next = link_next s.next s.tail keyboard; tail = keyboard })

module _ {S : Type 0} (run_init : ℕ → S → Option (Status × S)) where
  -- The loop of `keyboard_init`, on fuel; the statuses are not looked at.
  unfoldable pub init_loop : (fuel : ℕ) → (ℕ → ℕ) → (keyboard : ℕ) → S → Option S
  init_loop zero next keyboard s = none
  init_loop (suc fuel) next keyboard s =
      let rest = run_init keyboard s >>= λ (res, s'). init_loop fuel next (next keyboard) s' in
      if keyboard == 0 then some s else rest

  -- `keyboard_init`, with the keyboard of the PS/2 driver.
  unfoldable pub keyboard_init : (fuel : ℕ) → Keyboards → (ps2 : ℕ) → S → Option (Keyboards × S)
  unfolding insert init_loop
  keyboard_init fuel keyboards ps2 s =
      let keyboards' = (insert keyboards ps2).1 in
      init_loop fuel keyboards'.next keyboards'.head s >>= λ s'. some (keyboards', s')

-- The keyboards from an address on.
abbrev pub Follows : (ℕ → ℕ) → (from : ℕ) → List ℕ → Type 0
Follows next from [] = from ≡ 0
Follows next from (x ∷ xs) = (from ≡ x) × (x ≢ 0) × Follows next (next x) xs

last_or-ne : (x y : ℕ) (xs : List ℕ) → y ≢ x → All (λ z. z ≢ x) xs → last_or y xs ≢ x
last_or-ne x y [] ne out = ne
last_or-ne x y (z ∷ xs) ne (ne', out) = last_or-ne x z xs ne' out

-- A keyboard behind the last one.
Follows-link_next :
    (next : ℕ → ℕ) (from x keyboard : ℕ) (xs : List ℕ)
    → Follows next from (x ∷ xs)
    → Apart (x ∷ xs)
    → All (λ y. y ≢ keyboard) (x ∷ xs)
    → keyboard ≢ 0
    → next keyboard ≡ 0
    → Follows (link_next next (last_or x xs) keyboard) from (x ∷ xs ++ (keyboard ∷ []))
unfolding link_next
Follows-link_next next from x keyboard [] (at, some_x, end) apart (ne, out) some_keyboard fresh = (
  at,
  some_x,
  (
    pick_then {i = x} refl keyboard (next x),
    some_keyboard,
    pick_else (λ e. ne (sym e)) _ _ ∙ fresh,
  ),
)
Follows-link_next next from x keyboard (y ∷ xs) (at, some_x, follows) ((ne_y, out_x), apart)
      (ne, out) some_keyboard fresh =
    (
      at,
      some_x,
      subst (λ p. Follows (link_next next (last_or y xs) keyboard) p (y ∷ xs ++ (keyboard ∷ [])))
          (sym (pick_else (λ e. last_or-ne x y xs ne_y out_x (sym e)) _ _))
          (Follows-link_next next (next x) y keyboard xs follows apart out some_keyboard fresh),
    )

-- The list from `head` to `tail`.
pub record Listed (s : Keyboards) (xs : List ℕ) : Type 0 where
  pub follows : Follows s.next s.head xs
  pub tail_at : s.tail ≡ last_or 0 xs
  pub apart : Apart xs

-- A keyboard with an init that is not in the list and has no next one is put at the end of the list.
pub insert-Listed :
    (s : Keyboards) (keyboard : ℕ) (xs : List ℕ)
    → Listed s xs
    → keyboard ≢ 0
    → s.has_init keyboard ≡ true
    → s.next keyboard ≡ 0
    → All (λ y. y ≢ keyboard) xs
    → (s' : Keyboards) × (insert s keyboard ≡ (all_ok, s'))
      × Follows s'.next s'.head (xs ++ (keyboard ∷ []))
      × (s'.tail ≡ keyboard)
unfolding insert
insert-Listed s keyboard [] listed some_keyboard has_init fresh out = (
  record s { head = keyboard; tail = keyboard },
  rw has_init (ground (arith, some_keyboard, listed.follows)),
  (refl, some_keyboard, fresh),
  refl,
)
insert-Listed s keyboard (x ∷ xs) listed some_keyboard has_init fresh out =
    let some_head : s.head ≢ 0 = λ e. listed.follows.1 (sym listed.follows.0 ∙ e) in
    (
      record s { next = link_next s.next (last_or x xs) keyboard; tail = keyboard },
      rw (has_init, listed.tail_at) (ground (arith, some_keyboard, some_head)),
      Follows-link_next s.next s.head x keyboard xs listed.follows listed.apart out some_keyboard
          fresh,
      refl,
    )

-- keyboard_init runs the init of each keyboard of the list once, in order, within a round more than
-- there are keyboards.
abbrev pub run_all : {S : Type 0} → (ℕ → S → Option (Status × S)) → List ℕ → S → Option S
run_all run_init [] s = some s
run_all run_init (x ∷ xs) s = run_init x s >>= λ (res, s'). run_all run_init xs s'

pub init_loop-run_all :
    {S : Type 0} (run_init : ℕ → S → Option (Status × S)) (xs : List ℕ) (next : ℕ → ℕ) (from : ℕ)
    (s : S)
    → Follows next from xs
    → init_loop run_init (suc (length xs)) next from s ≡ run_all run_init xs s
unfolding init_loop
init_loop-run_all run_init [] next from s at = pick_then at _ _
init_loop-run_all run_init (x ∷ xs) next from s (at, some_x, follows) =
    pick_else (λ e. some_x (sym at ∙ e)) _ _
    ∙ ap (λ f. run_init f s >>= λ (res, s'). init_loop run_init (suc (length xs)) next (next f) s')
        at
    ∙ ap (λ f. run_init x s >>= f)
        (fun_ext (λ (res, s'). init_loop-run_all run_init xs next (next x) s' follows))
