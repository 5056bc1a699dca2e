-- ===== src/Kern/Str.antt =====
-- src/kernel/stdkern/kernstr.c and `memcmpk` of kernmem.c. A text is the list of its characters, its
-- NUL left off; a character is a byte, and `char` is signed.
pub mod Compare
use asif_os.Prelude.{
  ℕ, zero, suc, ◌+◌, ◌-◌, ◌*◌, ◌%◌, bit_xor, Bool, true, false, Option, none, some, List, [], ◌∷◌,
  ◌==◌, ltb, leb, if◌then◌else◌, ◌>>=◌, length, map,
}
use asif_os.Prelude.Int.{ℤ, pos, negsuc}

-- `strlenk`
abbrev pub strlenk : List ℕ → ℕ
strlenk str = length str

-- `strnlenk`
abbrev pub strnlenk : List ℕ → ℕ → ℕ
strnlenk str maxsiz = if ltb maxsiz (strlenk str) then maxsiz else strlenk str

-- The difference of two `char`s, as an `int`: the bytes are moved by 128, which orders them as
-- signed numbers.
unfoldable pub char_diff : ℕ → ℕ → ℤ
char_diff a b =
    let a' = (a + 128) % 256 in
    let b' = (b + 128) % 256 in if leb b' a' then pos (a' - b') else negsuc (b' - a' - 1)

abbrev pub is_zero : ℤ → Bool
is_zero (pos zero) = true
is_zero (pos (suc n)) = false
is_zero (negsuc n) = false

-- `strcmpk`
unfoldable pub strcmpk : List ℕ → List ℕ → ℤ
unfolding char_diff
strcmpk [] [] = pos 0
strcmpk [] (b ∷ t) = char_diff 0 b
strcmpk (a ∷ s) [] = char_diff a 0
strcmpk (a ∷ s) (b ∷ t) =
    let rest = strcmpk s t in if is_zero (char_diff a b) then rest else char_diff a b

-- `memcmpk` of two memories of `count` bytes; a fault where one is shorter.
unfoldable pub memcmpk : List ℕ → List ℕ → ℕ → Option ℤ
memcmpk s t zero = some (pos 0)
memcmpk [] t (suc count) = none
memcmpk (a ∷ s) [] (suc count) = none
memcmpk (a ∷ s) (b ∷ t) (suc count) =
    let rest = memcmpk s t count in if is_zero (char_diff a b) then rest else some (char_diff a b)

-- `strlowerk`
abbrev pub lower : ℕ → ℕ
lower ch = if leb 0x41 ch then (if leb ch 0x5a then bit_xor ch 0x20 else ch) else ch

unfoldable pub strlowerk : List ℕ → List ℕ
strlowerk str = map lower str

-- `strcpyk` into the memory at `dest`: it writes the characters and no NUL, and faults past the
-- end.
unfoldable pub strcpyk : List ℕ → List ℕ → Option (List ℕ)
strcpyk dest [] = some dest
strcpyk [] (ch ∷ src) = none
strcpyk (byte ∷ dest) (ch ∷ src) = strcpyk dest src >>= λ rest. some (ch ∷ rest)

-- The text that starts at a memory: its bytes before the first NUL.
unfoldable pub text_at : List ℕ → List ℕ
text_at [] = []
text_at (byte ∷ bytes) = let rest = text_at bytes in if byte == 0 then [] else byte ∷ rest
