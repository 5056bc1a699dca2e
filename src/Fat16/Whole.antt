-- ===== src/Fat16/Whole.antt =====
-- `fat16_read` of src/kernel/fs/fat16.c against the contents of a file on the disk.
use asif_os.Prelude.{
  ltb_else, leb_else, ℕ, ◌+◌, ◌-◌, ◌*◌, ◌/◌, ◌%◌, ◌^◌, ◌≤◌, ◌<◌, ◌≡◌, ap, ap₂, ◌∙◌, arith, true,
  Option, none, some, List, ◌==◌, leb, if◌then◌else◌, ◌>>=◌, length, take, pick_else, length-take,
}
use native.Mathlib.Nat.{mul-div_cancel}
use asif_os.Kern.Status.{Status, all_ok}
use asif_os.Stream.{seek}
use asif_os.Stream.Read.{sector_bytes}
use asif_os.Fat16.{Fat, FatHeader, cluster_number, file_size}
use asif_os.Fat16.Cluster.{Reader, cluster_pos}
use asif_os.Fat16.File.{
  FatFileDescriptor, Copied, read_sectors, clipped, sectors_of, first_reader, read,
}
use asif_os.Fat16.Follow.{Volume, first_sector, cluster_pos_lem}
use asif_os.Fat16.Chain.{sectors_left, Linked, Linked-Placed, chain_bytes, length-chain_bytes}
use asif_os.Fat16.Sector.{At}
use asif_os.Fat16.Loop.{read_sectors_lem}

sectors_of_bounds : (n : ℕ) → (n ≤ sectors_of 512 n * 512) × (sectors_of 512 n * 512 < n + 512)
sectors_of_bounds n = (ground arith, ground arith)

-- Nothing is cut off within the file.
clipped_all :
    (desc : FatFileDescriptor) (size nmemb : ℕ)
    → desc.pos ≡ 0
    → nmemb * size ≤ file_size desc.entry
    → nmemb * size < 2 ^ 31
    → clipped desc size nmemb ≡ nmemb * size
unfolding clipped
clipped_all desc size nmemb start inside small =
    let total : ℕ = nmemb * size in
    let whole : nmemb * size % 2 ^ 32 ≡ total = omega (arith, small) in
    let fits : (desc.pos + nmemb * size % 2 ^ 32) % 2 ^ 32 ≤ file_size desc.entry =
      omega (arith, small, start, inside) in
    ltb_else fits ((file_size desc.entry + 2 ^ 32 - desc.pos) % 2 ^ 32) (nmemb * size % 2 ^ 32)
    ∙ whole

module _ (disk : ℕ → ℕ) (disk_read_block : ℕ → Status × List ℕ)
    (reads : (sector : ℕ) → disk_read_block sector ≡ (all_ok, sector_bytes disk sector)) where
  -- A read whose loop reads all its sectors.
  read_complete :
      (fat : Fat) (desc : FatFileDescriptor) (buf : List ℕ) (size nmemb total : ℕ) (last : Reader)
      (out : List ℕ)
      → clipped desc size nmemb ≡ total
      → 0 < size
      → fat.header.bytes_per_sector ≡ 512
      → total < 2 ^ 31
      → read_sectors disk_read_block (sectors_of 512 total) (first_reader fat desc) buf total
        ≡ some (record { complete = true; reader = last; out = out })
      → read disk_read_block fat desc buf size nmemb
        ≡ some (total / size, out, record desc { pos = (desc.pos + length out) % 2 ^ 32 }, last.fat)
  unfolding read
  read_complete fat desc buf size nmemb total last out cut some_size bps small loop =
      let answer : Copied → ℕ → Option (ℕ × List ℕ × FatFileDescriptor × Fat) = λ c t. some (
        if c.complete then t / size else 0,
        c.out,
        record desc { pos = (desc.pos + length c.out) % 2 ^ 32 },
        c.reader.fat,
      ) in
      let body : ℕ → Option (ℕ × List ℕ × FatFileDescriptor × Fat) = λ t.
        read_sectors disk_read_block (sectors_of 512 t) (first_reader fat desc) buf t >>= λ c.
        answer c t in
      pick_else (λ (e : size ≡ 0). omega arith) none _
      ∙ ap₂
          (λ (b t : ℕ).
            if b == 0
            then none
            else if leb (2 ^ 31) t
            then none
            else (read_sectors disk_read_block (sectors_of b t) (first_reader fat desc) buf t
                >>= λ c. answer c t))
          bps cut
      ∙ leb_else small none (body total)
      ∙ ap (λ copied. copied >>= λ c. answer c total) loop

  -- On a volume of 512-byte sectors whose file's clusters lie below 2 ^ 31 bytes, over a disk that
  -- reads all its sectors: a read from the start of a file, of members of some size, of no more bytes
  -- than the file has, fewer than 2 ^ 31, and of fewer sectors than its chain of clusters has, answers
  -- the number of members that were asked for; the bytes are the first ones of the chain, and the
  -- position is behind them.
  pub read-chain_bytes :
      (fat : Fat) (desc : FatFileDescriptor) (clusters buf : List ℕ) (size nmemb : ℕ)
      → Volume fat.header fat.end_sector_pos
      → Linked disk disk_read_block reads fat.header fat.end_sector_pos
          (cluster_number desc.entry)
          clusters
      → desc.pos ≡ 0
      → 0 < size
      → nmemb * size ≤ file_size desc.entry
      → nmemb * size < 2 ^ 31
      → sectors_of 512 (nmemb * size) < sectors_left fat.header.sectors_per_cluster clusters 0
      → (fat' : Fat) × (read disk_read_block fat desc buf size nmemb
          ≡ some (
            nmemb,
            take (nmemb * size) (
                chain_bytes disk disk_read_block reads fat.header fat.end_sector_pos
                  (cluster_number desc.entry)
                  clusters
                  0),
            record desc { pos = nmemb * size },
            fat',
          ))
  unfolding seek
  read-chain_bytes fat desc clusters buf size nmemb v linked start some_size inside small few =
      let total : ℕ = nmemb * size in
      let header : FatHeader = fat.header in
      let cluster : ℕ = cluster_number desc.entry in
      let placed =
        Linked-Placed disk disk_read_block reads header fat.end_sector_pos cluster clusters
          linked in
      let reader : Reader = first_reader fat desc in
      let first : cluster_pos fat cluster ≡ first_sector header fat.end_sector_pos cluster * 512 =
        cluster_pos_lem fat cluster v placed in
      let at_start : (cluster_pos fat cluster + desc.pos) % 2 ^ 32
          ≡ (first_sector header fat.end_sector_pos cluster + 0) * 512 =
        omega (arith, first, start, placed.on_disk) in
      let at : At disk disk_read_block reads reader clusters 0 = record {
        volume = v;
        linked = linked;
        count_at = start;
        pos_at = at_start;
        sector_in = v.some_sector;
      } in
      let (enough, no_more) = sectors_of_bounds total in
      let (last, loop) =
        read_sectors_lem disk disk_read_block reads (sectors_of 512 total) reader clusters 0 buf
          total at enough no_more few in
      let bytes : List ℕ =
        chain_bytes disk disk_read_block reads header fat.end_sector_pos cluster clusters 0 in
      let long = length-take total bytes (
        omega (
          arith,
          length-chain_bytes disk disk_read_block reads header fat.end_sector_pos cluster clusters
              0,
          few,
          enough,
        )) in
      let run =
        read_complete fat desc buf size nmemb total last (take total bytes)
          (clipped_all desc size nmemb start inside small) some_size v.bytes_at small loop in
      let pos : (desc.pos + length (take total bytes)) % 2 ^ 32 ≡ total =
        omega (arith, long, start, small) in
      (
        last.fat,
        run
            ∙ ap₂ (λ (n p : ℕ). some (n, take total bytes, record desc { pos = p }, last.fat))
                (mul-div_cancel nmemb some_size) pos,
      )
