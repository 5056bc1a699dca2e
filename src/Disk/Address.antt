-- ===== src/Disk/Address.antt =====
-- The block address that src/kernel/disk/disk.c sends.
use asif_os.Prelude.{ℕ, ◌+◌, ◌*◌, ◌^◌, ◌<◌, ◌≡◌, ap₂, arith, List, [], ◌∷◌, ◌==◌, if◌then◌else◌}
use asif_os.Disk.{request}

-- The registers of an ATA disk hold the last two bytes written to a port.
abbrev pub latched : ℕ → List (ℕ × ℕ) → ℕ × ℕ → ℕ × ℕ
latched port [] (previous, current) = (previous, current)
latched port ((at, value) ∷ writes) (previous, current) =
    latched port writes (if at == port then (current, value) else (previous, current))

-- The address and the count that a disk takes from the writes to its ports.
abbrev pub taken : List (ℕ × ℕ) → ℕ × ℕ
taken writes =
    let (b3, b0) = latched 0x1f3 writes (0, 0) in
    let (b4, b1) = latched 0x1f4 writes (0, 0) in
    let (b5, b2) = latched 0x1f5 writes (0, 0) in
    let (c1, c0) = latched 0x1f2 writes (0, 0) in
    (b0 + 2 ^ 8 * b1 + 2 ^ 16 * b2 + 2 ^ 24 * b3 + 2 ^ 32 * b4 + 2 ^ 40 * b5, c0 + 2 ^ 8 * c1)

-- From the ports a disk takes the block and the count that it was asked for, within 48 and 16 bits.
pub taken-request :
    (lba sector_count : ℕ)
    → lba < 2 ^ 48
    → sector_count < 2 ^ 16
    → taken (request lba sector_count (record { answers = []; writes = [] })).writes
      ≡ (lba, sector_count)
taken-request lba sector_count lt small = ap₂ (λ (a b : ℕ). (a, b)) (omega arith) (omega arith)
