-- ===== src/Stdlib/Editor.antt =====
-- The line that `asifos_terminal_readline` of programs/stdlib/src/asifos.c reads.
use asif_os.Prelude.{
  ℕ, ◌+◌, ◌-◌, ◌%◌, ◌/◌, ◌≤◌, ◌<◌, ◌≡◌, refl, sym, ap, ◌∙◌, subst₂, arith, Bool, true, false, not,
  Option, some, List, [], ◌∷◌, ◌++◌, append_assoc, length, length-append, set, store, store-set,
  length-set, ◌==◌, ltb, if◌then◌else◌, ◌>>=◌, ltb_then, ltb_else, dec_lt, map, lt→ltb,
}
use asif_os.Stdlib.{put, remove}
use asif_os.Stdlib.Readline.{Reading, end_line, request_if, readline_loop}
use asif_os.Stdlib.Line.{
  Key, release, enter, rub, char, classify, drop_last, edit, screen, screen-append,
  drop_last-append, last_char, set-append,
}

-- One turn of the loop, by the meaning of its key.
abbrev turn : (keys : List ℕ) → (i max : ℕ) → Reading → Key → Option Reading
turn keys i max s release = readline_loop keys i max true s
turn keys i max s enter = end_line s i
turn keys i max s rub =
    let removed = readline_loop keys (i - 1) max true (request_if true remove s) in
    let stay = readline_loop keys i max true s in if ltb 0 i then removed else stay
turn keys i max s (char ch) = store s.buf i ch >>= λ buf.
    readline_loop keys (i + 1) max true (request_if true (put ch) (record s { buf = buf }))

chosen :
    {A B : Type 0} (f : A → B) (a b c : Bool) (w x y z : A)
    → (if a then f w else if b then f x else if c then f y else f z)
      ≡ f (if a then w else if b then x else if c then y else z)
chosen f true b c w x y z = refl
chosen f false true c w x y z = refl
chosen f false false true w x y z = refl
chosen f false false false w x y z = refl

readline_loop-turn :
    (ev : ℕ) (keys : List ℕ) (i max : ℕ) (s : Reading)
    → i < max - 1
    → readline_loop (ev ∷ keys) i max true s ≡ turn keys i max s (classify ev)
unfolding readline_loop
readline_loop-turn ev keys i max s lt =
    ltb_then lt _ _
    ∙ chosen (turn keys i max s) (ltb 0 (ev / 256)) (ev % 256 == 13) (ev % 256 == 8) release enter
        rub (char (ev % 256))

-- The buffer and the screen while the line `line` is typed behind `text`.
pub record Typed (s : Reading) (text line : List ℕ) (size : ℕ) : Type 0 where
  pub rest : List ℕ
  pub holds : s.buf ≡ line ++ rest
  pub fits : length s.buf ≡ size
  pub waits : s.ended ≡ false
  pub seen : screen text s.requests ≡ text ++ line

-- The outcome of a loop: the line, ended by a NUL, or so far.
pub record Read (s : Reading) (text line : List ℕ) (ended : Bool) (size : ℕ) : Type 0 where
  pub rest : List ℕ
  pub holds : s.buf ≡ line ++ rest
  pub closed : ended ≡ true → (tail : List ℕ) × (rest ≡ 0 ∷ tail)
  pub fits : length s.buf ≡ size
  pub answer : s.ended ≡ ended
  pub seen : screen text s.requests ≡ text ++ line

end_line_lem :
    (s : Reading) (text line : List ℕ) (size : ℕ)
    → Typed s text line size
    → length line < size
    → (s' : Reading) × (end_line s (length line) ≡ some s') × Read s' text line true size
end_line_lem s text line size typed lt =
    let (tail, e) =
      set-append line typed.rest 0 (omega (arith, lt, typed.fits, ap length typed.holds)) in
    let buf : List ℕ = set s.buf (length line) 0 in
    (
      record s { buf = buf; ended = true },
      ap (λ m. m >>= λ buf. some (record s { buf = buf; ended = true }))
          (store-set s.buf (length line) 0 (omega (arith, lt, typed.fits))),
      record {
        rest = 0 ∷ tail;
        holds = ap (λ b. set b (length line) 0) typed.holds ∙ e;
        closed = λ _. (tail, refl);
        fits = length-set s.buf (length line) 0 ∙ typed.fits;
        answer = refl;
        seen = typed.seen;
      },
    )

-- A run that reads what the editor answers.
abbrev pub Reads : Option Reading → (text : List ℕ) → List ℕ × Bool → (size : ℕ) → Type 0
Reads run text (line, ended) size = (s : Reading) × (run ≡ some s) × Read s text line ended size

Reads-≡ :
    (run run' : Option Reading) (text : List ℕ) (r r' : List ℕ × Bool) (size : ℕ)
    → run' ≡ run
    → r ≡ r'
    → Reads run text r size
    → Reads run' text r' size
Reads-≡ run run' text r r' size e e' reads =
    subst₂ (λ run r. Reads run text r size) (sym e) e' reads

drop_last_empty : (line : List ℕ) → length line ≡ 0 → drop_last line ≡ line
drop_last_empty [] e = refl
drop_last_empty (x ∷ line) e = absurd (omega arith)

module _ (keys : List ℕ) (text : List ℕ) (size max : ℕ) (le : max ≤ size)
    (more : (s : Reading) (line : List ℕ)
      → Typed s text line size
      → length line < max
      → Reads
          (readline_loop keys (length line) max true s)
          text
          (edit (map classify keys) line (max - 1))
          size) where
  turn_lem :
      (key : Key) (s : Reading) (line : List ℕ)
      → Typed s text line size
      → length line < max - 1
      → Reads
          (turn keys (length line) max s key)
          text
          (edit (key ∷ map classify keys) line (max - 1))
          size
  unfolding edit
  turn_lem release s line typed lt =
      Reads-≡ _ _ text _ _ size refl (sym (ltb_then lt _ _)) (more s line typed (omega arith))
  turn_lem enter s line typed lt = end_line_lem s text line size typed (omega arith)
  turn_lem rub s line typed lt = elim (dec_lt 0 (length line)) [
    | yes some_typed ↦
        let (front, ch, e) = last_char line some_typed in
        let shorter : length line ≡ length front + 1 =
          ap length e ∙ length-append front (ch ∷ []) in
        let typed' : Typed (request_if true remove s) text front size = record {
          rest = ch ∷ typed.rest;
          holds =
              typed.holds ∙ ap (λ l. l ++ typed.rest) e ∙ append_assoc front (ch ∷ []) typed.rest;
          fits = typed.fits;
          waits = typed.waits;
          seen =
              screen-append text s.requests remove
              ∙ ap drop_last
                  (typed.seen ∙ ap (λ l. text ++ l) e ∙ sym (append_assoc text front (ch ∷ [])))
              ∙ drop_last-append (text ++ front) ch;
        } in
        Reads-≡ _ _ text _ _ size
          (ltb_then some_typed _ _
            ∙ ap (λ i. readline_loop keys i max true (request_if true remove s))
                (omega (arith, shorter)))
          (sym (
            ltb_then lt _ _
            ∙ ap (λ l. edit (map classify keys) l (max - 1))
                (ap drop_last e ∙ drop_last-append front ch)))
          (more (request_if true remove s) front typed' (omega (arith, shorter)))
    | no empty ↦
        Reads-≡ _ _ text _ _ size (ltb_else {i = 0} {k = length line} (omega (arith, empty)) _ _)
          (sym (
            ltb_then lt _ _
            ∙ ap (λ l. edit (map classify keys) l (max - 1))
                (drop_last_empty line (omega (arith, empty)))))
          (more s line typed (omega arith))
  ]
  turn_lem (char ch) s line typed lt =
      let (tail, e) =
        set-append line typed.rest ch (omega (arith, lt, le, typed.fits, ap length typed.holds)) in
      let buf : List ℕ = set s.buf (length line) ch in
      let s1 : Reading = request_if true (put ch) (record s { buf = buf }) in
      let line' : List ℕ = line ++ (ch ∷ []) in
      let longer : length line' ≡ length line + 1 = length-append line (ch ∷ []) in
      let typed' : Typed s1 text line' size = record {
        rest = tail;
        holds =
            ap (λ b. set b (length line) ch) typed.holds
            ∙ e
            ∙ sym (append_assoc line (ch ∷ []) tail);
        fits = length-set s.buf (length line) ch ∙ typed.fits;
        waits = typed.waits;
        seen =
            screen-append text s.requests (put ch)
            ∙ ap (λ t. t ++ (ch ∷ [])) typed.seen
            ∙ append_assoc text line (ch ∷ []);
      } in
      Reads-≡ _ _ text _ _ size
        (ap
            (λ m. m >>= λ buf.
              readline_loop keys (length line + 1) max true
                (request_if true (put ch) (record s { buf = buf })))
            (store-set s.buf (length line) ch (omega (arith, lt, le, typed.fits)))
          ∙ ap (λ i. readline_loop keys i max true s1) (sym longer))
        (sym (ltb_then lt _ _)) (more s1 line' typed' (omega (arith, longer)))

edit_full :
    (key : Key) (keys : List Key) (line : List ℕ) (room : ℕ)
    → room ≤ length line
    → edit (key ∷ keys) line room ≡ (line, true)
unfolding edit
edit_full release keys line room le = ltb_else le _ _
edit_full enter keys line room le = refl
edit_full rub keys line room le = ltb_else le _ _
edit_full (char ch) keys line room le = ltb_else le _ _

pub readline_loop_lem :
    (keys : List ℕ) (s : Reading) (text line : List ℕ) (size max : ℕ)
    → max ≤ size
    → Typed s text line size
    → length line < max
    → Reads
        (readline_loop keys (length line) max true s)
        text
        (edit (map classify keys) line (max - 1))
        size
unfolding readline_loop edit
readline_loop_lem [] s text line size max le typed lt = elim (dec_lt (length line) (max - 1)) [
  | yes room ↦
      Reads-≡ _ _ text (line, false) _ size (ltb_then room _ _)
        (ap (λ b. (line, not b)) (sym (lt→ltb (length line) (max - 1) room)))
        (
          s,
          refl,
          record {
            rest = typed.rest;
            holds = typed.holds;
            closed = λ e. cc;
            fits = typed.fits;
            answer = typed.waits;
            seen = typed.seen;
          },
        )
  | no full ↦
      let off : ltb (length line) (max - 1) ≡ false = ground (arith, full) in
      Reads-≡ _ _ text (line, true) _ size
        (ltb_else {i = length line} {k = max - 1} (omega (arith, full)) _ _)
        (ap (λ b. (line, not b)) (sym off)) (end_line_lem s text line size typed (omega arith))
]
readline_loop_lem (ev ∷ keys) s text line size max le typed lt =
    elim (dec_lt (length line) (max - 1)) [
      | yes room ↦
          Reads-≡ _ _ text _ _ size (readline_loop-turn ev keys (length line) max s room) refl (
            turn_lem keys text size max le
              (λ s line typed lt. readline_loop_lem keys s text line size max le typed lt)
              (classify ev) s line typed room)
      | no full ↦
          Reads-≡ _ _ text (line, true) _ size
            (ltb_else {i = length line} {k = max - 1} (omega (arith, full)) _ _)
            (sym (edit_full (classify ev) (map classify keys) line (max - 1) (omega (arith, full))))
            (end_line_lem s text line size typed (omega arith))
    ]
