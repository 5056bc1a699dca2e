-- ===== src/Stream/Read.antt =====
-- `diskstream_read` of src/kernel/disk/stream.c against the bytes of the disk.
use asif_os.Prelude.{
  ℕ, zero, suc, ◌+◌, ◌-◌, ◌*◌, ◌/◌, ◌%◌, ◌^◌, ◌≤◌, ◌<◌, ◌≡◌, ◌≢◌, refl, sym, ap, ap₂, ◌∙◌, List, [],
  ◌∷◌, ◌++◌, take, drop, length, ◌==◌, if◌then◌else◌, arith, dec_le, ℕ_discrete,
}
use asif_os.Kern.Status.{Status, all_ok}
use asif_os.Stream.{sector_size, DiskStream, read_loop, sectors_needed, read}

mod-eq : (n : ℕ) → n < 2 ^ 32 → n % 2 ^ 32 ≡ n
mod-eq n lt = omega arith

sectors_needed_all :
    (offset total : ℕ)
    → 0 < total
    → offset + total < 2 ^ 32
    → (offset + total) % sector_size ≢ 1
    → total + offset ≤ sectors_needed offset total * sector_size
unfolding sectors_needed
sectors_needed_all offset total some_wanted small fits = ground (arith, fits)

sectors_needed_part :
    (offset total : ℕ)
    → 0 < total
    → offset + total < 2 ^ 32
    → (offset + total) % sector_size ≡ 1
    → total - 1 + offset ≡ sectors_needed offset total * sector_size
unfolding sectors_needed
sectors_needed_part offset total some_wanted small off = ground arith

module _ (disk : ℕ → ℕ) where
  -- The `n` bytes of the disk from `p` on.
  abbrev pub range : (p n : ℕ) → List ℕ
  range p zero = []
  range p (suc n) = disk p ∷ range (p + 1) n

  pub length-range : (p n : ℕ) → length (range p n) ≡ n
  length-range p zero = refl
  length-range p (suc n) = ap suc (length-range (p + 1) n)

  pub take-range : (k p n : ℕ) → k ≤ n → take k (range p n) ≡ range p k
  take-range zero p n le = refl
  take-range (suc k) p zero le = absurd (omega arith)
  take-range (suc k) p (suc n) le =
      ap (λ bytes. disk p ∷ bytes) (take-range k (p + 1) n (omega arith))

  take-range_all : (k p n : ℕ) → n ≤ k → take k (range p n) ≡ range p n
  take-range_all zero p zero le = refl
  take-range_all zero p (suc n) le = absurd (omega arith)
  take-range_all (suc k) p zero le = refl
  take-range_all (suc k) p (suc n) le =
      ap (λ bytes. disk p ∷ bytes) (take-range_all k (p + 1) n (omega arith))

  drop-range : (k p q n m : ℕ) → q ≡ p + k → n ≡ k + m → drop k (range p n) ≡ range q m
  drop-range zero p q n m at len = ap₂ range (omega arith) (omega arith)
  drop-range (suc k) p q zero m at len = absurd (omega arith)
  drop-range (suc k) p q (suc n) m at len = drop-range k (p + 1) q n m (omega arith) (omega arith)

  pub range-append : (p q m n l : ℕ) → q ≡ p + m → l ≡ m + n → range p m ++ range q n ≡ range p l
  range-append p q zero n l at len = ap₂ range (omega arith) (omega arith)
  range-append p q (suc m) n zero at len = absurd (omega arith)
  range-append p q (suc m) n (suc l) at len =
      ap (λ bytes. disk p ∷ bytes) (range-append (p + 1) q m n l (omega arith) (omega arith))

  -- A sector that is read: its 512 bytes.
  abbrev pub sector_bytes : ℕ → List ℕ
  sector_bytes sector = range (sector * sector_size) sector_size

  module _ (disk_read_block : ℕ → Status × List ℕ)
      (reads : (sector : ℕ) → disk_read_block sector ≡ (all_ok, sector_bytes sector)) where
    copied_lem :
        (sector offset tot m : ℕ)
        → offset + m ≤ sector_size
        → (m ≢ tot → (m ≤ tot) × (offset + m ≡ sector_size))
        → take tot (drop offset (sector_bytes sector)) ≡ range (sector * sector_size + offset) m
    copied_lem sector offset tot m fits short =
        let tail : ℕ = sector_size - offset in
        let from : ℕ = sector * sector_size + offset in
        ap (take tot)
          (drop-range offset (sector * sector_size) from sector_size tail refl (omega arith))
        ∙ elim (ℕ_discrete m tot) [
          | yes all ↦ take-range tot from tail (omega arith) ∙ ap (range from) (sym all)
          | no less ↦
              take-range_all tot from tail (omega (arith, short less))
              ∙ ap (range from) (omega (arith, short less))
        ]

    read_loop-suc :
        (n sector offset tot m : ℕ) (rest : List ℕ)
        → take tot (drop offset (sector_bytes sector)) ≡ range (sector * sector_size + offset) m
        → read_loop disk_read_block n (sector + 1) 0 (tot - m) ≡ (all_ok, rest)
        → read_loop disk_read_block (suc n) sector offset tot
          ≡ (all_ok, range (sector * sector_size + offset) m ++ rest)
    unfolding read_loop
    read_loop-suc n sector offset tot m rest copied more =
        rw (reads sector, copied, length-range (sector * sector_size + offset) m, more) refl

    -- Enough sectors: all the bytes.
    read_loop_all :
        (n sector offset tot : ℕ)
        → offset < sector_size
        → tot + offset ≤ n * sector_size
        → read_loop disk_read_block n sector offset tot
          ≡ (all_ok, range (sector * sector_size + offset) tot)
    unfolding read_loop
    read_loop_all zero sector offset tot lt le =
        ap (λ got. (all_ok, range (sector * sector_size + offset) got)) {x = 0} (omega arith)
    read_loop_all (suc n) sector offset tot lt le =
        let from : ℕ = sector * sector_size + offset in
        let next : ℕ = (sector + 1) * sector_size + 0 in
        elim (dec_le (tot + offset) sector_size) [
          | yes near ↦
              read_loop-suc n sector offset tot tot (range next 0)
                (copied_lem sector offset tot tot (omega arith) (λ ne. absurd (ne refl)))
                (read_loop_all n (sector + 1) 0 (tot - tot) (omega arith) (omega arith)
                  ∙ ap (λ got. (all_ok, range next got)) {x = tot - tot} {y = 0} (omega arith))
              ∙ ap (λ bytes. (all_ok, bytes))
                  (range-append from (from + tot) tot 0 tot refl (omega arith))
          | no far ↦
              let here : ℕ = sector_size - offset in
              read_loop-suc n sector offset tot here (range next (tot - here))
                (copied_lem sector offset tot here (omega arith) (λ ne. (omega arith, omega arith)))
                (read_loop_all n (sector + 1) 0 (tot - here) (omega arith) (omega arith))
              ∙ ap (λ bytes. (all_ok, bytes))
                  (range-append from next here (tot - here) tot (omega arith) (omega arith))
        ]

    -- Too few sectors: the bytes to the end of the last one.
    read_loop_part :
        (n sector offset tot got : ℕ)
        → offset < sector_size
        → got + offset ≡ n * sector_size
        → got ≤ tot
        → read_loop disk_read_block n sector offset tot
          ≡ (all_ok, range (sector * sector_size + offset) got)
    unfolding read_loop
    read_loop_part zero sector offset tot got lt e le =
        ap (λ got'. (all_ok, range (sector * sector_size + offset) got')) {x = 0} (omega arith)
    read_loop_part (suc n) sector offset tot got lt e le =
        let from : ℕ = sector * sector_size + offset in
        let next : ℕ = (sector + 1) * sector_size + 0 in
        let here : ℕ = sector_size - offset in
        read_loop-suc n sector offset tot here (range next (got - here))
          (copied_lem sector offset tot here (omega arith) (λ ne. (omega arith, omega arith)))
          (read_loop_part n (sector + 1) 0 (tot - here) (got - here) (omega arith) (omega arith)
            (omega arith))
        ∙ ap (λ bytes. (all_ok, bytes))
            (range-append from next here (got - here) got (omega arith) (omega arith))

    -- On a disk whose sectors are all read, `diskstream_read` succeeds, moves the position by
    -- `total` and returns the bytes of the disk from the position on: all `total` of them, but one
    -- less when the last one wanted is the first of a sector. This is for a `total` of at least 1
    -- that stays below 2 ^ 32 with the position.
    pub read_lem :
        (stream : DiskStream) (total : ℕ)
        → 0 < total
        → stream.pos + total < 2 ^ 32
        → read disk_read_block stream total ≡ (
          all_ok,
          range stream.pos (if (stream.pos + total) % sector_size == 1 then total - 1 else total),
          record { pos = stream.pos + total },
        )
    unfolding read
    read_lem stream total some_wanted small =
        let sector : ℕ = stream.pos / sector_size in
        let offset : ℕ = stream.pos % sector_size in
        let n : ℕ = sectors_needed offset total in
        let at : sector * sector_size + offset ≡ stream.pos = omega arith in
        let done : read_loop disk_read_block n sector offset total ≡ (
          all_ok,
          range stream.pos (if (stream.pos + total) % sector_size == 1 then total - 1 else total),
        ) =
          elim (ℕ_discrete ((offset + total) % sector_size) 1) [
            | yes off ↦
                read_loop_part n sector offset total (total - 1) (omega arith)
                  (sectors_needed_part offset total some_wanted (omega arith) off) (omega arith)
                ∙ ap₂ (λ p k. (all_ok, range p k)) at (ground arith)
            | no fits ↦
                read_loop_all n sector offset total (omega arith)
                  (sectors_needed_all offset total some_wanted (omega arith) fits)
                ∙ ap₂ (λ p k. (all_ok, range p k)) at (ground (arith, fits))
          ] in
        rw (done, mod-eq (stream.pos + total) small) refl
