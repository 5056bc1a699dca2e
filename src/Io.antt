-- ===== src/Io.antt =====
-- The ports of the machine as src/kernel/io/io.asm reaches them. A run of a driver is given the answers
-- that it reads, in order and each at its port, and collects what it writes. A read that the answers
-- do not have next is `none`.
use asif_os.Prelude.{ℕ, Option, none, some, List, [], ◌∷◌, ◌++◌, ◌==◌, if◌then◌else◌}

pub record Ports : Type 0 where
  pub answers : List (ℕ × ℕ)
  pub writes : List (ℕ × ℕ)

-- `inb` and `inw`
abbrev pub take_answer : ℕ → List (ℕ × ℕ) → Option (ℕ × List (ℕ × ℕ))
take_answer port [] = none
take_answer port ((at, value) ∷ answers) = if at == port then some (value, answers) else none

abbrev pub inb : ℕ → Ports → Option (ℕ × Ports)
inb port ports = elim (take_answer port ports.answers) [
  | none ↦ none
  | some (value, answers) ↦ some (value, record ports { answers = answers })
]

-- `outb`
abbrev pub outb : ℕ → ℕ → Ports → Ports
outb port value ports = record ports { writes = ports.writes ++ ((port, value) ∷ []) }

-- The answers at a port, before others.
abbrev pub answers_at : ℕ → List ℕ → List (ℕ × ℕ) → List (ℕ × ℕ)
answers_at port [] after = after
answers_at port (value ∷ values) after = (port, value) ∷ answers_at port values after
