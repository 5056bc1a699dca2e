-- ===== src/Stdlib/Line.antt =====
-- A line editor, for `asifos_terminal_readline` of programs/stdlib/src/asifos.c, and the screen that it writes to.
use asif_os.Prelude.{
  ℕ, ◌%◌, ◌/◌, ◌<◌, ◌≡◌, refl, ap, arith, Bool, true, not, List, [], ◌∷◌, ◌++◌, length, set, ◌==◌,
  ltb, if◌then◌else◌,
}
use asif_os.Stdlib.{Request, print, put, put_colored, remove}

-- What a key means to the editor.
pub data Key : Type 0 where
  release enter rub : Key
  char : (ch : ℕ) → Key

abbrev pub classify : ℕ → Key
classify ev =
    if ltb 0 (ev / 256)
    then release
    else if ev % 256 == 13
    then enter
    else if ev % 256 == 8
    then rub
    else char (ev % 256)

abbrev pub drop_last : List ℕ → List ℕ
drop_last [] = []
drop_last (x ∷ []) = []
drop_last (x ∷ y ∷ xs) = x ∷ drop_last (y ∷ xs)

-- The line of at most `room` characters behind what is typed already, and whether it is ended.
unfoldable pub edit : List Key → (line : List ℕ) → (room : ℕ) → List ℕ × Bool
edit [] line room = (line, not (ltb (length line) room))
edit (release ∷ keys) line room =
    let next = edit keys line room in if ltb (length line) room then next else (line, true)
edit (enter ∷ keys) line room = (line, true)
edit (rub ∷ keys) line room =
    let next = edit keys (drop_last line) room in
    if ltb (length line) room then next else (line, true)
edit (char ch ∷ keys) line room =
    let next = edit keys (line ++ (ch ∷ [])) room in
    if ltb (length line) room then next else (line, true)

-- The text on the screen after requests.
abbrev pub show_request : List ℕ → Request → List ℕ
show_request text (print more) = text ++ more
show_request text (put ch) = text ++ (ch ∷ [])
show_request text (put_colored ch color) = text ++ (ch ∷ [])
show_request text remove = drop_last text

abbrev pub screen : List ℕ → List Request → List ℕ
screen text [] = text
screen text (request ∷ requests) = screen (show_request text request) requests

pub screen-append :
    (text : List ℕ) (requests : List Request) (request : Request)
    → screen text (requests ++ (request ∷ [])) ≡ show_request (screen text requests) request
screen-append text [] request = refl
screen-append text (r ∷ requests) request = screen-append (show_request text r) requests request

pub drop_last-append : (xs : List ℕ) (x : ℕ) → drop_last (xs ++ (x ∷ [])) ≡ xs
drop_last-append [] x = refl
drop_last-append (y ∷ []) x = refl
drop_last-append (y ∷ z ∷ xs) x = ap (λ t. y ∷ t) (drop_last-append (z ∷ xs) x)

-- A line that is not empty ends in a character.
pub last_char :
    (line : List ℕ) → 0 < length line → (front : List ℕ) × (ch : ℕ) × (line ≡ front ++ (ch ∷ []))
last_char [] lt = absurd (omega arith)
last_char (x ∷ []) lt = ([], x, refl)
last_char (x ∷ y ∷ line) lt =
    let (front, ch, e) = last_char (y ∷ line) (omega arith) in (x ∷ front, ch, ap (λ t. x ∷ t) e)

pub set-append :
    (xs rest : List ℕ) (v : ℕ)
    → length xs < length (xs ++ rest)
    → (tail : List ℕ) × (set (xs ++ rest) (length xs) v ≡ xs ++ (v ∷ tail))
set-append [] [] v lt = absurd (omega arith)
set-append [] (x ∷ rest) v lt = (rest, refl)
set-append (x ∷ xs) rest v lt =
    let (tail, e) = set-append xs rest v (omega arith) in (tail, ap (λ t. x ∷ t) e)
