-- ===== src/Fat16/Position.antt =====
-- `fat16_seek`, `fat16_tell` and `fat16_stat` of src/kernel/fs/fat16.c. The sums of a `long` are those
-- of the integers: file sizes are modelled below 2 ^ 31.
use asif_os.Prelude.{
  ℕ, ◌+◌, ◌-◌, ◌%◌, ◌^◌, ◌≤◌, ◌<◌, ◌≡◌, ◌↔◌, arith, ap, Bool, false, Option, none, some, ◌==◌, ltb,
  leb, ◌&&◌, ◌||◌, if◌then◌else◌,
}
use asif_os.Prelude.Int.{ℤ, pos, negsuc}
use asif_os.Kern.Status.{Status, all_ok, eio, einvarg}
use asif_os.Fat16.{file_size, is_readonly}
use asif_os.Fat16.File.{FatFileDescriptor}

-- FILE_SEEK_MODE_SET, FILE_SEEK_MODE_CUR and FILE_SEEK_MODE_END
abbrev pub seek_set : ℕ
seek_set = 1

abbrev pub seek_cur : ℕ
seek_cur = 2

abbrev pub seek_end : ℕ
seek_end = 4

-- The cases of `fat16_seek`, with the position they set.
abbrev pub seek_from_current : (position size : ℕ) → ℤ → Status × ℕ
seek_from_current position size (pos n) =
    if leb size (n + position) then (eio, position) else (all_ok, (position + n) % 2 ^ 32)
seek_from_current position size (negsuc n) =
    if leb (size + n + 1) position
    then (eio, position)
    else (all_ok, (position + 2 ^ 32 - (n + 1)) % 2 ^ 32)

abbrev pub seek_to : (position size : ℕ) → ℤ → Status × ℕ
seek_to position size (pos n) = if leb size n then (eio, position) else (all_ok, n)
seek_to position size (negsuc n) = (all_ok, (2 ^ 32 - (n + 1)) % 2 ^ 32)

abbrev pub seek_from_end : (position size : ℕ) → ℤ → Status × ℕ
seek_from_end position size (pos n) = if ltb 0 n then (eio, position) else (all_ok, size + n)
seek_from_end position size (negsuc n) =
    if ltb size (n + 1) then (eio, position) else (all_ok, size - (n + 1))

-- `fat16_seek`
unfoldable pub seek : FatFileDescriptor → (offset : ℤ) → (whence : ℕ) → Status × FatFileDescriptor
seek desc offset whence =
    let size = file_size desc.entry in
    let (res, position) =
      if whence == seek_cur
      then seek_from_current desc.pos size offset
      else if whence == seek_set
      then seek_to desc.pos size offset
      else if whence == seek_end
      then seek_from_end desc.pos size offset
      else (einvarg, desc.pos) in
    (res, record desc { pos = position })

-- `fat16_tell`: the position as a `long`.
unfoldable pub tell : FatFileDescriptor → ℤ
tell desc = if ltb desc.pos (2 ^ 31) then pos desc.pos else negsuc (2 ^ 32 - 1 - desc.pos)

-- `NuttleFileStat`
pub record FileStat : Type 0 where
  pub flags : ℕ
  pub size : ℕ

-- `fat16_stat`, at a pointer to the record that it fills.
unfoldable pub stat : FatFileDescriptor → (ptr : ℕ) → Status × Option FileStat
stat desc ptr = if ptr == 0 then (einvarg, none) else (
  all_ok,
  some (record { flags = if is_readonly desc.entry then 1 else 0; size = file_size desc.entry }),
)

-- The seeks before the start of the file that are not refused.
abbrev pub before_start : FatFileDescriptor → ℤ → ℕ → Bool
before_start desc (pos n) whence = false
before_start desc (negsuc n) whence =
    if whence == seek_cur then ltb desc.pos (n + 1) else whence == seek_set

-- How far an offset goes.
abbrev pub distance : ℤ → ℕ
distance (pos n) = n
distance (negsuc n) = n + 1

-- Where a mode counts from, and the number that the offset leads to.
abbrev pub base_of : FatFileDescriptor → (whence : ℕ) → Option ℕ
base_of desc whence =
    if whence == seek_cur
    then some desc.pos
    else if whence == seek_set
    then some 0
    else if whence == seek_end
    then some (file_size desc.entry)
    else none

abbrev pub target : (base : ℕ) → (offset : ℤ) → ℤ
target base (pos n) = pos (base + n)
target base (negsuc n) = if ltb n base then pos (base - (n + 1)) else negsuc (n - base)

-- What a seek answers and the position it leaves, by the number it leads to: the positions of the
-- file's bytes are taken, and from the end also the one behind them; behind that it is refused. A
-- negative one is refused from the end only.
abbrev pub outcome : FatFileDescriptor → (whence : ℕ) → ℤ → Status × ℕ
outcome desc whence (pos n) =
    if ltb n (file_size desc.entry) || (whence == seek_end && n == file_size desc.entry)
    then (all_ok, n)
    else (eio, desc.pos)
outcome desc whence (negsuc n) =
    if whence == seek_end then (eio, desc.pos) else (all_ok, 2 ^ 32 - (n + 1))

-- The same with a mode that there is not.
abbrev pub answers : FatFileDescriptor → (offset : ℤ) → (whence : ℕ) → Option ℕ → Status × ℕ
answers desc offset whence none = (einvarg, desc.pos)
answers desc offset whence (some base) = outcome desc whence (target base offset)

seek-answers :
    (desc : FatFileDescriptor) (offset : ℤ) (whence : ℕ)
    → desc.pos ≤ file_size desc.entry
    → file_size desc.entry < 2 ^ 31
    → distance offset < 2 ^ 31
    → ((seek desc offset whence).0, (seek desc offset whence).1.pos)
      ≡ answers desc offset whence (base_of desc whence)
unfolding seek
seek-answers desc (pos n) whence inside small short = ground arith
seek-answers desc (negsuc n) whence inside small short = ground arith

-- A position in the file stays in the file through any seek, refused or not, but for one to before
-- the start.
seek-before_start :
    (desc : FatFileDescriptor) (offset : ℤ) (whence : ℕ)
    → desc.pos ≤ file_size desc.entry
    → file_size desc.entry < 2 ^ 31
    → distance offset < 2 ^ 31
    → ((seek desc offset whence).1.pos ≤ file_size desc.entry)
      ↔ (before_start desc offset whence ≡ false)
unfolding seek
seek-before_start desc (pos n) whence inside small short = ground arith
seek-before_start desc (negsuc n) whence inside small short = ground arith

-- At a position in a file, file and offset shorter than 2 ^ 31, every seek answers and leaves what its
-- mode and its target say: done at a position of the file's bytes, and for the end also the one behind
-- them; refused with the position kept behind that, or for an unknown mode; and before the start refused
-- with the mode end, and with the others answered as done. These last are exactly the seeks that leave a
-- position outside of the file.
pub seek-outcome :
    (desc : FatFileDescriptor) (offset : ℤ) (whence : ℕ)
    → desc.pos ≤ file_size desc.entry
    → file_size desc.entry < 2 ^ 31
    → distance offset < 2 ^ 31
    → (seek desc offset whence ≡ (
      (answers desc offset whence (base_of desc whence)).0,
      record desc { pos = (answers desc offset whence (base_of desc whence)).1 },
    ))
      × (((seek desc offset whence).1.pos ≤ file_size desc.entry)
          ↔ (before_start desc offset whence ≡ false))
unfolding seek
seek-outcome desc offset whence inside small short = (
  ap (λ (a : Status × ℕ). (a.0, record desc { pos = a.1 }))
      (seek-answers desc offset whence inside small short),
  seek-before_start desc offset whence inside small short,
)
