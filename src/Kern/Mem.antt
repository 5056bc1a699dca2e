-- ===== src/Kern/Mem.antt =====
-- src/kernel/stdkern/kernmem.c: the memory routines over byte buffers. A buffer is the list of its
-- bytes; an access beyond its end is a fault.
use asif_os.Prelude.{
  ℕ, zero, suc, ◌%◌, Option, none, some, List, [], ◌∷◌, ◌>>=◌, ◌≡◌, refl, length, replicate, arith,
}

-- `memsetk`: the first `size` bytes become `(char) value`.
unfoldable pub memsetk : List ℕ → ℕ → ℕ → Option (List ℕ)
memsetk bytes value zero = some bytes
memsetk [] value (suc size) = none
memsetk (b ∷ bytes) value (suc size) =
    memsetk bytes value size >>= λ rest. some (value % 256 ∷ rest)

-- `memcpyk`: the first `size` bytes of `src` over those of `dest`.
unfoldable pub memcpyk : List ℕ → List ℕ → ℕ → Option (List ℕ)
memcpyk dest src zero = some dest
memcpyk [] src (suc size) = none
memcpyk (d ∷ dest) [] (suc size) = none
memcpyk (d ∷ dest) (s ∷ src) (suc size) = memcpyk dest src size >>= λ rest. some (s ∷ rest)

-- Filling a whole buffer.
pub memsetk-replicate :
    (bytes : List ℕ) (value n : ℕ)
    → length bytes ≡ n
    → memsetk bytes value n ≡ some (replicate n (value % 256))
unfolding memsetk
memsetk-replicate [] value zero e = refl
memsetk-replicate [] value (suc n) e = absurd (omega arith)
memsetk-replicate (b ∷ bytes) value zero e = absurd (omega arith)
memsetk-replicate (b ∷ bytes) value (suc n) e = rw (memsetk-replicate bytes value n (omega arith))
