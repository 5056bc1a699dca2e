-- ===== src/Stdlib.antt =====
-- programs/stdlib: the library of the user programs. A text is the list of its characters without its
-- NUL. What the library asks of the kernel is recorded in order; the calls themselves are assembly.
pub mod Itoa
pub mod Decimal
pub mod Number
pub mod Printf
pub mod Render
pub mod Readline
pub mod Line
pub mod Editor
pub mod Edited
use asif_os.Prelude.{
  ℕ, zero, suc, ◌+◌, ◌-◌, ◌%◌, ◌/◌, Option, none, some, List, [], ◌∷◌, ◌++◌, ◌==◌, if◌then◌else◌,
  length,
}

-- The calls of programs/stdlib/src/asifos.asm that change the screen.
pub data Request : Type 0 where
  print : List ℕ → Request
  put : (ch : ℕ) → Request
  put_colored : (ch color : ℕ) → Request
  remove : Request

-- `strlen`
unfoldable pub strlen : List ℕ → ℕ
strlen [] = 0
strlen (ch ∷ str) = strlen str + 1

-- `asifos_printc`
unfoldable pub printc : List ℕ → (color : ℕ) → List Request
printc [] color = []
printc (ch ∷ str) color = put_colored ch color ∷ printc str color
