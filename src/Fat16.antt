-- ===== src/Fat16.antt =====
-- src/kernel/fs/fat16.c: the read-only FAT16 driver. A directory in memory is its bytes, 32 for each
-- entry; reading behind them is a fault (`none`). The disk is the parameter of the stream's `read`.
pub mod Name
pub mod Find
pub mod Search
pub mod Cluster
pub mod Follow
pub mod File
pub mod Chain
pub mod Sector
pub mod Loop
pub mod Whole
pub mod Position
pub mod Walk
pub mod Driver
use asif_os.Prelude.{
  ℕ, zero, suc, ◌+◌, ◌-◌, ◌*◌, ◌/◌, ◌%◌, ◌^◌, Bool, true, false, Option, none, some, List, [], ◌∷◌,
  ◌++◌, ◌==◌, ltb, leb, if◌then◌else◌, ◌>>=◌, length, get_or, drop, bit_and,
}
use asif_os.Kern.Status.{Status, all_ok, eio, efsnotus, enomem, is_err, Code, ok, err}
use asif_os.Stream.{DiskStream, seek, read}

-- A little-endian field at an offset of a packed structure.
abbrev pub le16 : List ℕ → ℕ → ℕ
le16 bytes at = get_or bytes at 0 + 256 * get_or bytes (at + 1) 0

abbrev pub le32 : List ℕ → ℕ → ℕ
le32 bytes at = le16 bytes at + 65536 * le16 bytes (at + 2)

-- `NuttleFAT16Header`, the fields that the driver uses.
pub record FatHeader : Type 0 where
  pub bytes_per_sector : ℕ
  pub sectors_per_cluster : ℕ
  pub reserved_sectors : ℕ
  pub fat_tables : ℕ
  pub directory_entries : ℕ
  pub sectors_per_fat_table : ℕ
  pub signature : ℕ

abbrev pub header_size : ℕ
header_size = 62

abbrev pub decode_header : List ℕ → FatHeader
decode_header bytes = record {
  bytes_per_sector = le16 bytes 11;
  sectors_per_cluster = get_or bytes 13 0;
  reserved_sectors = le16 bytes 14;
  fat_tables = get_or bytes 16 0;
  directory_entries = le16 bytes 17;
  sectors_per_fat_table = le16 bytes 22;
  signature = get_or bytes 38 0;
}

-- `NuttleFATDirectory`: an entry is the memory that starts with its 32 bytes.
abbrev pub entry_size : ℕ
entry_size = 32

abbrev pub attributes : List ℕ → ℕ
attributes entry = get_or entry 11 0

abbrev pub file_size : List ℕ → ℕ
file_size entry = le32 entry 28

-- `fat16_get_cluster_number`
abbrev pub cluster_number : List ℕ → ℕ
cluster_number entry = le16 entry 26

-- FAT_FILE_DIRECTORY and FAT_FILE_READONLY
abbrev pub is_directory : List ℕ → Bool
is_directory entry = bit_and (attributes entry) 0x10 == 0x10

abbrev pub is_readonly : List ℕ → Bool
is_readonly entry = bit_and (attributes entry) 0x01 == 0x01

-- `NuttleFATPrivate`: the header, the root directory in memory with its number of items and the
-- sector behind it, and the two streams.
pub record Fat : Type 0 where
  pub header : FatHeader
  pub root : List ℕ
  pub root_total : ℕ
  pub end_sector_pos : ℕ
  pub table_stream : DiskStream
  pub data_stream : DiskStream

-- The loop of `fat16_get_root_directory` that counts the items, `n` entries before the end. A
-- first byte of 0 ends the directory, and 0xe5 marks an entry that is free.
unfoldable pub count_items : ℕ → List ℕ → ℕ → ℕ
count_items zero bytes total = total
count_items (suc n) bytes total =
    let first = get_or bytes 0 0 in
    let rest = count_items n (drop entry_size bytes) (if first == 0xe5 then total else total + 1) in
    if first == 0 then total else rest

abbrev pub root_sector_pos : FatHeader → ℕ
root_sector_pos header = header.fat_tables * header.sectors_per_fat_table + header.reserved_sectors

abbrev pub root_size : FatHeader → ℕ
root_size header = header.directory_entries * entry_size

-- `sector_size` of the disk
abbrev pub disk_sector_size : ℕ
disk_sector_size = 512

module _ (disk_read_block : ℕ → Status × List ℕ) where
  -- `fat16_get_root_directory`, with the block that `mallock` answers for it; 0 is no memory.
  unfoldable pub get_root_directory : FatHeader → (block : ℕ) → Code Fat
  get_root_directory header block =
      let (sought, stream) =
        seek (record { pos = 0 }) (root_sector_pos header * disk_sector_size % 2 ^ 32) in
      let (res, bytes, stream') = read disk_read_block stream (root_size header) in
      if block == 0
      then err enomem
      else if is_err res
      then err eio
      else ok (record {
        header = header;
        root = bytes;
        root_total = count_items header.directory_entries bytes 0;
        end_sector_pos = root_sector_pos header + root_size header / disk_sector_size;
        table_stream = record { pos = 0 };
        data_stream = record { pos = 0 };
      })

  -- The error of `fat16_get_root_directory` as `fat16_resolve` passes it on.
  abbrev pub root_or_eio : Code Fat → Code Fat
  root_or_eio (ok fat) = ok fat
  root_or_eio (err _) = err eio

  -- `fat16_resolve`: the driver's data for the disk, with the block of the root directory.
  unfoldable pub resolve : (block : ℕ) → Code Fat
  unfolding get_root_directory
  resolve block =
      let (res, bytes, stream) = read disk_read_block (record { pos = 0 }) header_size in
      let header = decode_header bytes in
      if is_err res
      then err eio
      else if header.signature == 0x28
      then root_or_eio (get_root_directory header block)
      else if header.signature == 0x29
      then root_or_eio (get_root_directory header block)
      else err efsnotus
