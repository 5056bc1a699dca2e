-- ===== src/Fat16/File.antt =====
-- `fat16_read` of src/kernel/fs/fat16.c.
use asif_os.Prelude.{
  ℕ, zero, suc, ◌+◌, ◌-◌, ◌*◌, ◌/◌, ◌%◌, ◌^◌, Bool, true, false, Option, none, some, List, [], ◌++◌,
  ◌==◌, ltb, leb, if◌then◌else◌, ◌>>=◌, length, take, drop,
}
use asif_os.Kern.Status.{Status}
use asif_os.Stream.{seek}
use asif_os.Fat16.{Fat, cluster_number, file_size}
use asif_os.Fat16.Cluster.{Reader, cluster_pos, read_internals}

-- `NuttleFATFileDescriptor`: its directory entry, and the position.
pub record FatFileDescriptor : Type 0 where
  pub entry : List ℕ
  pub pos : ℕ

-- How the loop of `fat16_read` ends: whether all sectors were read, the chain, and the bytes that
-- went to the caller.
pub record Copied : Type 0 where
  pub complete : Bool
  pub reader : Reader
  pub out : List ℕ

abbrev pub put_front : List ℕ → Option Copied → Option Copied
put_front bytes rest = rest >>= λ c. some (record c { out = bytes ++ c.out })

-- `buf` after bytes have been read into it.
abbrev pub overwrite : List ℕ → List ℕ → List ℕ
overwrite bytes buf = bytes ++ drop (length bytes) buf

-- The bytes that `fat16_read` wants, cut at the end of the file.
unfoldable pub clipped : FatFileDescriptor → (size nmemb : ℕ) → ℕ
clipped desc size nmemb =
    let total = nmemb * size % 2 ^ 32 in
    let end = file_size desc.entry in
    if ltb end ((desc.pos + total) % 2 ^ 32) then (end + 2 ^ 32 - desc.pos) % 2 ^ 32 else total

abbrev pub sectors_of : (bps total : ℕ) → ℕ
sectors_of bps total = total / bps + (if total % bps == 0 then 0 else 1)

abbrev pub first_reader : Fat → FatFileDescriptor → Reader
first_reader fat desc =
    let cluster = cluster_number desc.entry in
    record {
      fat = record fat {
        data_stream = (seek fat.data_stream ((cluster_pos fat cluster + desc.pos) % 2 ^ 32)).1;
      };
      cluster = cluster;
      count = desc.pos;
    }

module _ (disk_read_block : ℕ → Status × List ℕ) where
  -- The loop of `fat16_read`.
  unfoldable pub read_sectors :
      (sectors : ℕ) → Reader → (buf : List ℕ) → (tmp_total : ℕ) → Option Copied
  read_sectors zero reader buf tmp_total =
      some (record { complete = true; reader = reader; out = [] })
  read_sectors (suc sectors) reader buf tmp_total =
      read_internals disk_read_block reader >>= λ (go, reader', bytes, count).
      let buf' = overwrite bytes buf in
      let rest = read_sectors sectors reader' buf' (tmp_total - count) in
      if go
      then (if ltb tmp_total count
          then some (record { complete = true; reader = reader'; out = take tmp_total buf' })
          else if ltb 512 count
          then none
          else put_front (take count buf') rest)
      else some (record { complete = false; reader = reader'; out = [] })

  -- `fat16_read`, with the unknown bytes of its buffer: the answer, the bytes, the descriptor and the
  -- driver's data. A division by zero is a fault, and so is a total of 2 ^ 31 and more, which is
  -- negative in the source.
  unfoldable pub read :
      Fat
      → FatFileDescriptor
      → (buf : List ℕ) → (size nmemb : ℕ) → Option (ℕ × List ℕ × FatFileDescriptor × Fat)
  unfolding read_sectors clipped
  read fat desc buf size nmemb =
      let total = clipped desc size nmemb in
      let bps = fat.header.bytes_per_sector in
      let copied = read_sectors (sectors_of bps total) (first_reader fat desc) buf total in
      if size == 0
      then none
      else if bps == 0
      then none
      else if leb (2 ^ 31) total
      then none
      else (copied >>= λ c. some (
        if c.complete then total / size else 0,
        c.out,
        record desc { pos = (desc.pos + length c.out) % 2 ^ 32 },
        c.reader.fat,
      ))
