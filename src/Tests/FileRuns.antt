-- ===== src/Tests/FileRuns.antt =====
-- Runs of src/kernel/disk/stream.c and src/kernel/fs/pparser.c.
use asif_os.Prelude.{
  ℕ, zero, suc, ◌≡◌, ◌≢◌, ◌<◌, ◌≤◌, ◌*◌, ◌%◌, refl, arith, Option, some, List, [], ◌∷◌, All,
}
use asif_os.Kern.Status.{Status, all_ok, ok}
use asif_os.Stream.{read}
use asif_os.Stream.Read.{sector_bytes, read_lem}
use asif_os.Pparser.{NuttlePath, parse_path, block_size}
use asif_os.Pparser.Parts.{IsPart, print_path, texts, parse-print}

abbrev disk : ℕ → ℕ
disk at = at % 251

abbrev read_block : ℕ → Status × List ℕ
read_block sector = (all_ok, sector_bytes disk sector)

read_lem_example :
    read read_block (record { pos = 510 }) 4 ≡ (all_ok, 8 ∷ 9 ∷ 10 ∷ 11 ∷ [], record { pos = 514 })
read_lem_example =
    read_lem disk read_block (λ sector. refl) (record { pos = 510 }) 4 (omega arith) (omega arith)

-- One byte at the start of a sector is not read.
first_byte : read read_block (record { pos = 512 }) 1 ≡ (all_ok, [], record { pos = 513 })
first_byte =
    read_lem disk read_block (λ sector. refl) (record { pos = 512 }) 1 (omega arith) (omega arith)

-- An allocator with `s` blocks.
abbrev blocks : ℕ → ℕ → Option (ℕ × ℕ)
blocks zero n = some (0, 0)
blocks (suc s) n = some (suc s * 4096, s)

abbrev Left : ℕ → ℕ → Type 0
Left k s = k ≤ s

blocks_room :
    (k n s : ℕ)
    → 0 < n
    → n ≤ block_size
    → Left (suc k) s
    → (ptr : ℕ) × (s' : ℕ) × (blocks s n ≡ some (ptr, s')) × (ptr ≢ 0) × Left k s'
blocks_room k n zero pos le left = absurd (omega arith)
blocks_room k n (suc s) pos le left = (suc s * 4096, s, refl, λ e. omega arith, omega arith)

-- 0:/bin/sh
abbrev bin_sh : List (List ℕ)
bin_sh = (98 ∷ 105 ∷ 110 ∷ []) ∷ (115 ∷ 104 ∷ []) ∷ []

bin_sh-IsPart : All IsPart bin_sh
bin_sh-IsPart = (
  record {
    some_char = omega arith;
    fits = omega arith;
    no_slash = (λ e. omega arith, (λ e. omega arith, (λ e. omega arith, tt)));
  },
  (
    record {
      some_char = omega arith;
      fits = omega arith;
      no_slash = (λ e. omega arith, (λ e. omega arith, tt));
    },
    tt,
  ),
)

parse-print_example :
    (path : NuttlePath) × (s : ℕ) × (parse_path blocks 6 (print_path 0 bin_sh) ≡ some (ok path, s))
    × (path.drive_no ≡ 0)
    × (texts path.parts ≡ bin_sh)
parse-print_example =
    parse-print blocks Left blocks_room 0 bin_sh 6 (omega arith) bin_sh-IsPart (omega arith)
