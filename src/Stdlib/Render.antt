-- ===== src/Stdlib/Render.antt =====
-- What `printf` of programs/stdlib/src/stdio.c shows.
use asif_os.Prelude.{ℕ, ◌+◌, ◌^◌, ◌<◌, ◌≡◌, ◌≢◌, List, [], ◌∷◌, ◌++◌, length}
use asif_os.Prelude.Int.{ℤ}
use asif_os.Stdlib.{Request, print, put, put_colored, remove}
use asif_os.Stdlib.Number.{decimal, magnitude}
use asif_os.Stdlib.Printf.{Arg, int, str, Printed}

-- A format in parts: characters that stand for themselves, and conversions with their arguments.
pub data Part : Type 0 where
  plain : (ch : ℕ) → Part
  an_int : ℤ → Part
  a_str : List ℕ → Part

abbrev pub format_of : List Part → List ℕ
format_of [] = []
format_of (plain ch ∷ parts) = ch ∷ format_of parts
format_of (an_int n ∷ parts) = 0x25 ∷ 0x64 ∷ format_of parts
format_of (a_str text ∷ parts) = 0x25 ∷ 0x73 ∷ format_of parts

abbrev pub args_of : List Part → List Arg
args_of [] = []
args_of (plain ch ∷ parts) = args_of parts
args_of (an_int n ∷ parts) = int n ∷ args_of parts
args_of (a_str text ∷ parts) = str text ∷ args_of parts

-- The text that the parts stand for.
abbrev pub text_of : List Part → List ℕ
text_of [] = []
text_of (plain ch ∷ parts) = ch ∷ text_of parts
text_of (an_int n ∷ parts) = decimal n ++ text_of parts
text_of (a_str text ∷ parts) = text ++ text_of parts

-- No part that stands for itself is a `%`, and no number is the least `int`.
abbrev pub Proper : List Part → Type 0
Proper [] = Unit {0}
Proper (plain ch ∷ parts) = (ch ≢ 0x25) × Proper parts
Proper (an_int n ∷ parts) = (magnitude n < 2 ^ 31) × Proper parts
Proper (a_str text ∷ parts) = Proper parts

-- The characters of requests that only write.
abbrev pub shown : List Request → List ℕ
shown [] = []
shown (print text ∷ requests) = text ++ shown requests
shown (put ch ∷ requests) = ch ∷ shown requests
shown (put_colored ch color ∷ requests) = ch ∷ shown requests
shown (remove ∷ requests) = shown requests

-- From one state to another exactly a text has been shown and counted.
pub record Shows (s s' : Printed) (text : List ℕ) : Type 0 where
  pub shows : shown s'.requests ≡ shown s.requests ++ text
  pub counts : s'.count ≡ s.count + length text
  pub room : length s'.priv_mem ≡ 14
