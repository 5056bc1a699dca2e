-- ===== src/Fat16/Follow.antt =====
-- Following a chain of clusters in src/kernel/fs/fat16.c, over the bytes of a disk.
use asif_os.Prelude.{
  ℕ, ◌+◌, ◌-◌, ◌*◌, ◌%◌, ◌^◌, ◌≤◌, ◌<◌, ◌≡◌, ap, ap₂, ◌∙◌, arith, Bool, true, false, Option, none,
  some, List, ◌==◌, ltb, if◌then◌else◌, length, pick_else,
}
use native.Mathlib.Nat.{add-mul}
use asif_os.Kern.Status.{Status, all_ok}
use asif_os.Stream.{DiskStream, seek, read}
use asif_os.Stream.Read.{range, sector_bytes, read_lem, length-range}
use asif_os.Fat16.{Fat, FatHeader}
use asif_os.Fat16.Cluster.{
  cluster_to_sector, end_of_chain, link, table_pos, Reader, cluster_bytes, cluster_pos,
  get_next_cluster, turn, take_sector, next_cluster, bytes_to_read, count_after, read_internals,
}

-- A volume of 512-byte sectors: its header, and the sector behind the root directory.
pub record Volume (header : FatHeader) (end : ℕ) : Type 0 where
  pub bytes_at : header.bytes_per_sector ≡ 512
  pub some_sector : 0 < header.sectors_per_cluster
  pub cluster_in : header.sectors_per_cluster < 256
  pub reserved_in : header.reserved_sectors < 2 ^ 16
  pub end_in : end < 2 ^ 22

-- The first sector of a cluster.
abbrev pub first_sector : FatHeader → ℕ → ℕ → ℕ
first_sector header end cluster = end + (cluster - 2) * header.sectors_per_cluster

-- A cluster that lies on the disk below 2 ^ 31 bytes.
pub record Placed (header : FatHeader) (end cluster : ℕ) : Type 0 where
  pub from_two : 2 ≤ cluster
  pub in_table : cluster < 0xfff0
  pub on_disk : (first_sector header end cluster + header.sectors_per_cluster) * 512 < 2 ^ 31

cluster_arith :
    (end spc cluster : ℕ)
    → 2 ≤ cluster
    → end + (cluster - 2) * spc < 2 ^ 22
    → (end + (cluster + 2 ^ 32 - 2) * spc) % 2 ^ 32 ≡ end + (cluster - 2) * spc
cluster_arith end spc cluster two lt =
    let wrapped : (cluster + 2 ^ 32 - 2) * spc ≡ (cluster - 2) * spc + 2 ^ 32 * spc =
      ap (λ (t : ℕ). t * spc) (omega arith) ∙ add-mul (cluster - 2) (2 ^ 32) spc in
    omega (arith, wrapped)

pub cluster_pos_lem :
    (fat : Fat) (cluster : ℕ)
    → Volume fat.header fat.end_sector_pos
    → Placed fat.header fat.end_sector_pos cluster
    → cluster_pos fat cluster ≡ first_sector fat.header fat.end_sector_pos cluster * 512
unfolding cluster_to_sector
cluster_pos_lem fat cluster v p =
    let sector =
      cluster_arith fat.end_sector_pos fat.header.sectors_per_cluster cluster p.from_two
        (omega (arith, p.on_disk)) in
    ap₂ (λ (s b : ℕ). s * b % 2 ^ 32) sector v.bytes_at ∙ omega (arith, p.on_disk)

ltb-false : (a b : ℕ) → b ≤ a → ltb a b ≡ false
ltb-false a b le = ground arith

link_lem : (cluster : ℕ) → 2 ≤ cluster → cluster < 0xfff0 → link cluster ≡ cluster
unfolding link
link_lem cluster lo hi = ground arith

module _ (disk : ℕ → ℕ) (disk_read_block : ℕ → Status × List ℕ)
    (reads : (sector : ℕ) → disk_read_block sector ≡ (all_ok, sector_bytes disk sector)) where
  -- The entry of a cluster in the table on the disk.
  abbrev pub table_entry : FatHeader → ℕ → ℕ
  table_entry header cluster = let at = table_pos header cluster in disk at + 256 * disk (at + 1)

  -- A read of a sector.
  read_sector :
      (stream : DiskStream)
      → stream.pos % 512 ≡ 0
      → stream.pos + 512 < 2 ^ 32
      → read disk_read_block stream 512
        ≡ (all_ok, range disk stream.pos 512, record { pos = stream.pos + 512 })
  read_sector stream aligned small =
      read_lem disk disk_read_block reads stream 512 (omega arith) small
      ∙ ap (λ n. (all_ok, range disk stream.pos n, record { pos = stream.pos + 512 }))
          (pick_else (λ e. omega arith) (512 - 1) 512)

  -- The next cluster is the one in the table.
  get_next_cluster_lem :
      (fat : Fat) (cluster next : ℕ)
      → Volume fat.header fat.end_sector_pos
      → cluster < 2 ^ 16
      → table_entry fat.header cluster ≡ next
      → 2 ≤ next
      → next < 0xfff0
      → get_next_cluster disk_read_block fat cluster
        ≡ (next, record fat { table_stream = record { pos = table_pos fat.header cluster + 2 } })
  unfolding get_next_cluster seek
  get_next_cluster_lem fat cluster next v lt entry lo hi =
      let at : ℕ = table_pos fat.header cluster in
      let low : at ≡ fat.header.reserved_sectors * 512 + cluster * 2 =
        ap (λ (b : ℕ). fat.header.reserved_sectors * b + cluster * 2) v.bytes_at in
      let small : at % 2 ^ 32 ≡ at = omega (arith, low, v.reserved_in) in
      let got : read disk_read_block (record { pos = at }) 2
          ≡ (all_ok, range disk at 2, record { pos = at + 2 }) =
        read_lem disk disk_read_block reads (record { pos = at }) 2 (omega arith)
          (omega (arith, low, v.reserved_in))
        ∙ ap (λ n. (all_ok, range disk at n, record { pos = at + 2 }))
            (pick_else (λ e. omega (arith, low)) (2 - 1) 2) in
      rw (small, got)
        (ap (λ n. (n, record fat { table_stream = record { pos = at + 2 } }))
          (ap link entry ∙ link_lem next lo hi))

  -- The chain after the last sector of a cluster.
  abbrev pub turned : Reader → ℕ → Reader
  turned reader next = record {
    fat = record (reader.fat) {
      table_stream = record { pos = table_pos reader.fat.header reader.cluster + 2 };
      data_stream = record {
        pos = first_sector reader.fat.header reader.fat.end_sector_pos next * 512;
      };
    };
    cluster = next;
    count = 0;
  }

  pub next_cluster_lem :
      (reader : Reader) (next : ℕ)
      → Volume reader.fat.header reader.fat.end_sector_pos
      → reader.cluster < 2 ^ 16
      → table_entry reader.fat.header reader.cluster ≡ next
      → Placed reader.fat.header reader.fat.end_sector_pos next
      → next_cluster disk_read_block reader ≡ (true, turned reader next)
  unfolding next_cluster seek
  next_cluster_lem reader next v lt entry p =
      let fat : Fat = record (reader.fat) {
        table_stream = record { pos = table_pos reader.fat.header reader.cluster + 2 };
      } in
      ap (turn disk_read_block reader)
        (get_next_cluster_lem reader.fat reader.cluster next v lt entry p.from_two p.in_table)
      ∙ pick_else (λ (e : next ≡ end_of_chain). omega (arith, p.in_table))
          (false, record reader { fat = fat; cluster = next }) _
      ∙ ap
          (λ (at : ℕ). (
            true,
            record {
              fat = record fat { data_stream = record { pos = at } };
              cluster = next;
              count = 0;
            },
          ))
          (cluster_pos_lem reader.fat next v p)

  -- The chain after a sector that is not the last of its cluster.
  abbrev pub moved : Reader → Reader
  moved reader = record {
    fat = record (reader.fat) { data_stream = record { pos = reader.fat.data_stream.pos + 512 } };
    cluster = reader.cluster;
    count = reader.count + 512;
  }

  -- A sector that ends in the cluster is read whole.
  pub read_internals_lem :
      (reader : Reader)
      → reader.fat.data_stream.pos % 512 ≡ 0
      → reader.fat.data_stream.pos + 512 < 2 ^ 32
      → reader.count + 512 ≤ cluster_bytes reader.fat.header
      → read_internals disk_read_block reader ≡ (
          if reader.count + 512 == cluster_bytes reader.fat.header
          then some (
            (next_cluster disk_read_block (moved reader)).0,
            (next_cluster disk_read_block (moved reader)).1,
            range disk reader.fat.data_stream.pos 512,
            512,
          )
          else some (true, moved reader, range disk reader.fat.data_stream.pos 512, 512))
  unfolding read_internals take_sector
  read_internals_lem reader aligned small inside =
      let whole : bytes_to_read disk_read_block reader ≡ 512 = ground (arith, inside) in
      let count : count_after disk_read_block reader ≡ reader.count + 512 =
        ground (arith, inside) in
      let got = read_sector reader.fat.data_stream aligned small in
      let bytes = range disk reader.fat.data_stream.pos 512 in
      let after_sector : Option (Bool × Reader × List ℕ × ℕ) =
        if reader.count + 512 == cluster_bytes reader.fat.header
        then some (
          (next_cluster disk_read_block (moved reader)).0,
          (next_cluster disk_read_block (moved reader)).1,
          bytes,
          512,
        )
        else some (true, moved reader, bytes, 512) in
      ap₂
        (λ (total n : ℕ).
          take_sector disk_read_block reader total n
            (read disk_read_block reader.fat.data_stream total))
        whole count
      ∙ ap (take_sector disk_read_block reader 512 (reader.count + 512)) got
      ∙ ap (λ big. if big then none else after_sector)
          (ltb-false 512 (length bytes)
            (omega (arith, length-range disk reader.fat.data_stream.pos 512)))
