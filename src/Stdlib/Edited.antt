-- ===== src/Stdlib/Edited.antt =====
-- The buffer and the screen after `asifos_terminal_readline` of programs/stdlib/src/asifos.c.
use asif_os.Prelude.{
  ℕ, ◌-◌, ◌%◌, ◌/◌, ◌≤◌, ◌<◌, ◌≡◌, ◌≢◌, refl, sym, ap, ◌∙◌, Bool, true, false, some, List, [], ◌∷◌,
  ◌++◌, append-nil, length, All, All-append, ◌==◌, ltb, if◌then◌else◌, pick_else, map,
}
use asif_os.Kern.Str.{text_at}
use asif_os.Stdlib.Readline.{Reading, readline}
use asif_os.Stdlib.Line.{Key, release, enter, rub, char, classify, drop_last, edit, screen}
use asif_os.Stdlib.Editor.{Read, readline_loop_lem}

text_at-line : (line tail : List ℕ) → All (λ ch. ch ≢ 0) line → text_at (line ++ (0 ∷ tail)) ≡ line
unfolding text_at
text_at-line [] tail some_chars = refl
text_at-line (ch ∷ line) tail (some_char, some_chars) =
    pick_else some_char _ _ ∙ ap (λ t. ch ∷ t) (text_at-line line tail some_chars)

readline_lem :
    (keys buf text : List ℕ) (max : ℕ)
    → 0 < max
    → max ≤ length buf
    → (s : Reading) × (readline keys buf max true ≡ some s)
      × Read s text
          (edit (map classify keys) [] (max - 1)).0
          (edit (map classify keys) [] (max - 1)).1
          (length buf)
unfolding readline
readline_lem keys buf text max lt le =
    readline_loop_lem keys (record { buf = buf; requests = []; ended = false }) text [] (length buf)
      max le
      (record { rest = buf; holds = refl; fits = refl; waits = refl; seen = sym (append-nil text) })
      lt

-- A key that types no NUL.
abbrev IsTyped : Key → Type 0
IsTyped release = Unit {0}
IsTyped enter = Unit {0}
IsTyped rub = Unit {0}
IsTyped (char ch) = ch ≢ 0

-- Keys by their numbers, each of which has a byte that is not 0.
keys-IsTyped : (keys : List ℕ) → All (λ ev. ev % 256 ≢ 0) keys → All IsTyped (map classify keys)
keys-IsTyped [] bytes = tt
keys-IsTyped (ev ∷ keys) (byte, bytes) = (
  chosen-IsTyped (ltb 0 (ev / 256)) (ev % 256 == 13) (ev % 256 == 8) byte,
  keys-IsTyped keys bytes,
)
  where
    chosen-IsTyped :
        {ch : ℕ} (a b c : Bool)
        → ch ≢ 0
        → IsTyped (if a then release else if b then enter else if c then rub else char ch)
    chosen-IsTyped true b c ne = tt
    chosen-IsTyped false true c ne = tt
    chosen-IsTyped false false true ne = tt
    chosen-IsTyped false false false ne = ne

drop_last-All : (line : List ℕ) → All (λ ch. ch ≢ 0) line → All (λ ch. ch ≢ 0) (drop_last line)
drop_last-All [] all = tt
drop_last-All (x ∷ []) all = tt
drop_last-All (x ∷ y ∷ line) (here, all) = (here, drop_last-All (y ∷ line) all)

both :
    (b : Bool) (next : List ℕ × Bool) (line : List ℕ)
    → All (λ ch. ch ≢ 0) next.0
    → All (λ ch. ch ≢ 0) line
    → All (λ ch. ch ≢ 0) (if b then next else (line, true)).0
both true next line all all' = all
both false next line all all' = all'

edit-All :
    (keys : List Key) (line : List ℕ) (room : ℕ)
    → All IsTyped keys
    → All (λ ch. ch ≢ 0) line
    → All (λ ch. ch ≢ 0) (edit keys line room).0
unfolding edit
edit-All [] line room typed all = all
edit-All (release ∷ keys) line room (_, typed) all =
    both (ltb (length line) room) (edit keys line room) line (edit-All keys line room typed all) all
edit-All (enter ∷ keys) line room typed all = all
edit-All (rub ∷ keys) line room (_, typed) all =
    both (ltb (length line) room) (edit keys (drop_last line) room) line
      (edit-All keys (drop_last line) room typed (drop_last-All line all)) all
edit-All (char ch ∷ keys) line room (some_char, typed) all =
    both (ltb (length line) room) (edit keys (line ++ (ch ∷ [])) room) line
      (edit-All keys (line ++ (ch ∷ [])) room typed
        (All-append (λ ch. ch ≢ 0) line (ch ∷ []) all (some_char, tt)))
      all

-- Into a buffer of at least max bytes, max being at least 1, asifos_terminal_readline with its output on,
-- of keys whose bytes are not 0, does what a line editor of max - 1 characters does: it is done when the
-- editor is, the buffer then holds the editor's line and its NUL, the line stands on the screen behind
-- the text that was there, and the buffer keeps its size.
pub readline-edit :
    (keys buf text : List ℕ) (max : ℕ)
    → 0 < max
    → max ≤ length buf
    → All (λ ev. ev % 256 ≢ 0) keys
    → (s : Reading) × (readline keys buf max true ≡ some s)
      × (s.ended ≡ (edit (map classify keys) [] (max - 1)).1)
      × (s.ended ≡ true → text_at s.buf ≡ (edit (map classify keys) [] (max - 1)).0)
      × (screen text s.requests ≡ text ++ (edit (map classify keys) [] (max - 1)).0)
      × (length s.buf ≡ length buf)
readline-edit keys buf text max lt le bytes =
    let (s, run, read) = readline_lem keys buf text max lt le in
    let line : List ℕ = (edit (map classify keys) [] (max - 1)).0 in
    (
      s,
      run,
      read.answer,
      λ ended.
          let (tail, e) = read.closed (sym read.answer ∙ ended) in
          ap text_at (read.holds ∙ ap (λ rest. line ++ rest) e)
          ∙ text_at-line line tail
              (edit-All (map classify keys) [] (max - 1) (keys-IsTyped keys bytes) tt),
      read.seen,
      read.fits,
    )
