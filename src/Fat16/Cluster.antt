-- ===== src/Fat16/Cluster.antt =====
-- Clusters in src/kernel/fs/fat16.c: the allocation table, and the read of one sector of a chain. The
-- position in a cluster (`count`) is an `int`, modelled below 2 ^ 31.
use asif_os.Prelude.{
  ℕ, ◌+◌, ◌-◌, ◌*◌, ◌%◌, ◌^◌, Bool, true, false, Option, none, some, List, ◌==◌, ltb, leb,
  if◌then◌else◌, length,
}
use asif_os.Kern.Status.{Status, is_err}
use asif_os.Stream.{DiskStream, seek, read}
use asif_os.Fat16.{Fat, FatHeader, le16}

-- `fat16_cluster_to_sector`: the subtraction of 2 is an `int`'s, the sum a `uint32_t`.
unfoldable pub cluster_to_sector :
    (root_directory_sector_end sector_per_cluster cluster_number : ℕ) → ℕ
cluster_to_sector end sector_per_cluster cluster =
    (end + (cluster + 2 ^ 32 - 2) * sector_per_cluster) % 2 ^ 32

-- The answer for the end of a chain, and for an error.
abbrev pub end_of_chain : ℕ
end_of_chain = 0xffff

-- The tests of `fat16_get_next_cluster`: a last, a bad, a reserved or an empty cluster ends the chain.
unfoldable pub link : ℕ → ℕ
link res =
    if leb 0xfff8 res
    then end_of_chain
    else if res == 0xfff7
    then end_of_chain
    else if leb 0xfff0 res
    then (if leb res 0xfff6 then end_of_chain else res)
    else if res == 0
    then end_of_chain
    else res

-- The position of a cluster's entry in the table: NUTTLE_FAT16_TABLE_ENTRY_SIZE is 2.
abbrev pub table_pos : FatHeader → ℕ → ℕ
table_pos header cluster = header.reserved_sectors * header.bytes_per_sector + cluster * 2

-- A chain while it is read: the cluster, and the position in it.
pub record Reader : Type 0 where
  pub fat : Fat
  pub cluster : ℕ
  pub count : ℕ

abbrev pub cluster_bytes : FatHeader → ℕ
cluster_bytes header = header.sectors_per_cluster * header.bytes_per_sector

-- The position of a cluster on the disk.
abbrev pub cluster_pos : Fat → ℕ → ℕ
cluster_pos fat cluster =
    cluster_to_sector fat.end_sector_pos fat.header.sectors_per_cluster cluster
    * fat.header.bytes_per_sector
    % 2 ^ 32

module _ (disk_read_block : ℕ → Status × List ℕ) where
  -- `fat16_get_next_cluster`
  unfoldable pub get_next_cluster : Fat → ℕ → ℕ × Fat
  get_next_cluster fat cluster =
      let (sought, stream) = seek fat.table_stream (table_pos fat.header cluster % 2 ^ 32) in
      let (res, bytes, stream') = read disk_read_block stream 2 in
      (
        if is_err res then end_of_chain else link (le16 bytes 0),
        record fat { table_stream = stream' },
      )

  -- `fat16_read_internals` behind its call of `fat16_get_next_cluster`.
  abbrev pub turn : Reader → ℕ × Fat → Bool × Reader
  turn reader (cluster, fat) =
      if cluster == end_of_chain then (false, record reader { fat = fat; cluster = cluster }) else (
        true,
        record {
          fat = record fat { data_stream = (seek fat.data_stream (cluster_pos fat cluster)).1 };
          cluster = cluster;
          count = 0;
        },
      )

  -- `fat16_read_internals` at the end of a cluster.
  unfoldable pub next_cluster : Reader → Bool × Reader
  next_cluster reader = turn reader (get_next_cluster reader.fat reader.cluster)

  -- `bytes_to_read`: negative, and so a large `uint32_t`, behind the end of the cluster.
  abbrev pub bytes_to_read : Reader → ℕ
  bytes_to_read reader =
      let size = cluster_bytes reader.fat.header in
      if ltb size (reader.count + 512) then (size + 2 ^ 32 - reader.count) % 2 ^ 32 else 512

  abbrev pub count_after : Reader → ℕ
  count_after reader =
      let size = cluster_bytes reader.fat.header in
      if ltb size (reader.count + 512) then size else reader.count + 512

  -- `fat16_read_internals` behind its read of `total` bytes, with the count after them.
  unfoldable pub take_sector :
      Reader
      → (total count : ℕ) → Status × List ℕ × DiskStream
      → Option (Bool × Reader × List ℕ × ℕ)
  take_sector reader total count (res, bytes, stream) =
      let fat = reader.fat in
      let after = record reader { fat = record fat { data_stream = stream }; count = count } in
      let (go, turned) = next_cluster after in
      if is_err res
      then some (false, reader, bytes, 0)
      else if ltb 512 (length bytes)
      then none
      else if count == cluster_bytes fat.header
      then some (go, turned, bytes, total)
      else some (true, after, bytes, total)

  -- `fat16_read_internals`: whether to go on, the bytes written to the buffer of 512, and their
  -- number. More bytes than that are a fault.
  unfoldable pub read_internals : Reader → Option (Bool × Reader × List ℕ × ℕ)
  unfolding take_sector
  read_internals reader =
      take_sector reader (bytes_to_read reader) (count_after reader)
        (read disk_read_block reader.fat.data_stream (bytes_to_read reader))
