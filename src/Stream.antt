-- ===== src/Stream.antt =====
-- src/kernel/disk/stream.c: byte reads from a disk of 512-byte sectors. The disk driver (port
-- input) is the parameter `disk_read_block`: the status and the 512 bytes of a sector.
-- Numbers are a `uint32_t`'s where the source's are.
pub mod Read
pub mod Handle
use asif_os.Prelude.{
  ℕ, zero, suc, ◌+◌, ◌-◌, ◌*◌, ◌/◌, ◌%◌, ◌^◌, Option, none, some, List, [], ◌∷◌, ◌++◌, ◌==◌, ltb,
  if◌then◌else◌, take, drop, min, length,
}
use asif_os.Kern.Status.{Status, all_ok, is_err}

-- NUTTLE_DEFAULT_DISK_SECTOR_SIZE
abbrev pub sector_size : ℕ
sector_size = 512

-- `NuttleDiskStream`; its disk is the parameter below.
pub record DiskStream : Type 0 where
  pub pos : ℕ

-- `diskstream_seek`
unfoldable pub seek : DiskStream → ℕ → Status × DiskStream
seek stream pos = (all_ok, record stream { pos = pos })

-- The number of sectors that `diskstream_read` asks for.
unfoldable pub sectors_needed : (offset total : ℕ) → ℕ
sectors_needed offset total =
    let size = (offset + total + 2 ^ 32 - 1) % 2 ^ 32 in
    if size % sector_size == 0 then size / sector_size else size / sector_size + 1

module _ (disk_read_block : ℕ → Status × List ℕ) where
  -- The loop of `diskstream_read` over `sectors_total` sectors: the status, and the bytes written to
  -- the caller's buffer.
  unfoldable pub read_loop : (sectors_total sector offset tot : ℕ) → Status × List ℕ
  read_loop zero sector offset tot = (all_ok, [])
  read_loop (suc sectors_total) sector offset tot =
      let (res, buffer) = disk_read_block sector in
      let copied = take tot (drop offset buffer) in
      let (res', buf) = read_loop sectors_total (sector + 1) 0 (tot - length copied) in
      if is_err res then (res, []) else (res', copied ++ buf)

  -- `diskstream_read`
  unfoldable pub read : DiskStream → (total : ℕ) → Status × List ℕ × DiskStream
  read stream total =
      let sector = stream.pos / sector_size in
      let offset = stream.pos % sector_size in
      let (res, buf) = read_loop (sectors_needed offset total) sector offset total in
      (
        res,
        buf,
        if is_err res then stream else record stream { pos = (stream.pos + total) % 2 ^ 32 },
      )
