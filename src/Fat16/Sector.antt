-- ===== src/Fat16/Sector.antt =====
-- One sector of a chain of clusters, as `fat16_read_internals` of src/kernel/fs/fat16.c reads it.
use asif_os.Prelude.{
  ℕ, ◌+◌, ◌-◌, ◌*◌, ◌%◌, ◌^◌, ◌≤◌, ◌<◌, ◌≡◌, refl, sym, ap, ◌∙◌, arith, Bool, true, some, List, [],
  ◌∷◌, ◌++◌, pick_then, pick_else, dec_lt,
}
use asif_os.Kern.Status.{Status, all_ok}
use asif_os.Stream.Read.{range, sector_bytes}
use asif_os.Fat16.Cluster.{Reader, cluster_bytes, read_internals}
use asif_os.Fat16.Follow.{Volume, first_sector, turned, moved, next_cluster_lem, read_internals_lem}
use asif_os.Fat16.Chain.{left, left_inside, Linked, Linked-Placed, chain_bytes, chain_rest}

module _ (disk : ℕ → ℕ) (disk_read_block : ℕ → Status × List ℕ)
    (reads : (sector : ℕ) → disk_read_block sector ≡ (all_ok, sector_bytes disk sector)) where
  -- The bytes from a reader on.
  abbrev pub ahead : Reader → List ℕ → ℕ → List ℕ
  ahead reader clusters sector =
      chain_bytes disk disk_read_block reads reader.fat.header reader.fat.end_sector_pos
        reader.cluster clusters sector

  -- A reader at a sector of the first cluster of a chain.
  pub record At (reader : Reader) (clusters : List ℕ) (sector : ℕ) : Type 0 where
    pub volume : Volume reader.fat.header reader.fat.end_sector_pos
    pub linked :
        Linked disk disk_read_block reads reader.fat.header reader.fat.end_sector_pos reader.cluster
          clusters
    pub count_at : reader.count ≡ sector * 512
    pub pos_at :
        reader.fat.data_stream.pos
        ≡ (first_sector reader.fat.header reader.fat.end_sector_pos reader.cluster + sector) * 512
    pub sector_in : sector < reader.fat.header.sectors_per_cluster

  -- What one sector of the chain gives: its bytes, and the reader at the next one.
  unfoldable pub Sector : Reader → List ℕ → ℕ → Type 0
  Sector reader clusters sector =
      (reader' : Reader) × (clusters' : List ℕ) × (sector' : ℕ) × (read_internals disk_read_block
          reader
        ≡ some (true, reader', range disk reader.fat.data_stream.pos 512, 512))
      × At reader' clusters' sector'
      × (left reader clusters sector ≡ left reader' clusters' sector' + 1)
      × (ahead reader clusters sector
          ≡ range disk reader.fat.data_stream.pos 512 ++ ahead reader' clusters' sector')

  sector_bounds :
      (reader : Reader) (clusters : List ℕ) (sector : ℕ)
      → At reader clusters sector
      → (reader.fat.data_stream.pos % 512 ≡ 0)
        × (reader.fat.data_stream.pos + 512 < 2 ^ 32)
        × (cluster_bytes reader.fat.header ≡ reader.fat.header.sectors_per_cluster * 512)
        × (reader.count + 512 ≤ cluster_bytes reader.fat.header)
  sector_bounds reader clusters sector at =
      let p =
        Linked-Placed disk disk_read_block reads reader.fat.header reader.fat.end_sector_pos
          reader.cluster clusters at.linked in
      let bytes : cluster_bytes reader.fat.header ≡ reader.fat.header.sectors_per_cluster * 512 =
        ap (λ (b : ℕ). reader.fat.header.sectors_per_cluster * b) at.volume.bytes_at in
      (
        omega (arith, at.pos_at),
        omega (arith, at.pos_at, p.on_disk, at.sector_in),
        bytes,
        omega (arith, bytes, at.count_at, at.sector_in),
      )

  -- A sector that is not the last of its cluster.
  Sector-inside :
      (reader : Reader) (clusters : List ℕ) (sector : ℕ)
      → At reader clusters sector
      → sector + 1 < reader.fat.header.sectors_per_cluster
      → Sector reader clusters sector
  unfolding Sector
  Sector-inside reader clusters sector at lt =
      let (aligned, small, bytes, inside) = sector_bounds reader clusters sector at in
      (
        moved disk disk_read_block reads reader,
        clusters,
        sector + 1,
        read_internals_lem disk disk_read_block reads reader aligned small inside
            ∙ pick_else
                (λ (e : reader.count + 512 ≡ cluster_bytes reader.fat.header).
                  omega (arith, bytes, at.count_at))
                _ _,
        record {
          volume = at.volume;
          linked = at.linked;
          count_at = omega (arith, at.count_at);
          pos_at = omega (arith, at.pos_at);
          sector_in = lt;
        },
        left_inside reader.fat.header.sectors_per_cluster clusters sector lt,
        chain_rest disk disk_read_block reads reader.fat.header reader.fat.end_sector_pos
              reader.cluster clusters sector at.sector_in
            ∙ ap (λ (p : ℕ). range disk p 512 ++ ahead reader clusters (sector + 1))
                (sym at.pos_at),
      )

  -- The last sector of a cluster that is not the last one.
  Sector-turn :
      (reader : Reader) (next : ℕ) (clusters : List ℕ) (sector : ℕ)
      → At reader (next ∷ clusters) sector
      → sector + 1 ≡ reader.fat.header.sectors_per_cluster
      → Sector reader (next ∷ clusters) sector
  unfolding Sector
  Sector-turn reader next clusters sector at last =
      let (aligned, small, bytes, inside) = sector_bounds reader (next ∷ clusters) sector at in
      let (placed, entry, linked) = at.linked in
      let one_sector : (reader.fat.header.sectors_per_cluster - sector) * 512 ≡ 512 =
        omega (arith, last) in
      let full : reader.count + 512 ≡ cluster_bytes reader.fat.header =
        omega (arith, bytes, at.count_at, last) in
      (
        turned disk disk_read_block reads (moved disk disk_read_block reads reader) next,
        clusters,
        0,
        read_internals_lem disk disk_read_block reads reader aligned small inside
            ∙ pick_then full _ _
            ∙ ap
                (λ (step : Bool × Reader).
                  some (step.0, step.1, range disk reader.fat.data_stream.pos 512, 512))
                (next_cluster_lem disk disk_read_block reads
                  (moved disk disk_read_block reads reader) next at.volume
                  (omega (arith, placed.in_table)) entry
                  (Linked-Placed disk disk_read_block reads reader.fat.header
                    reader.fat.end_sector_pos next clusters linked)),
        record {
          volume = at.volume;
          linked = linked;
          count_at = refl;
          pos_at = omega arith;
          sector_in = at.volume.some_sector;
        },
        omega (arith, last),
        ap
              (λ (n : ℕ).
                range disk
                  ((first_sector reader.fat.header reader.fat.end_sector_pos reader.cluster
                      + sector)
                    * 512)
                  n
                ++ chain_bytes disk disk_read_block reads reader.fat.header
                    reader.fat.end_sector_pos next clusters 0)
              one_sector
            ∙ ap
                (λ (p : ℕ).
                  range disk p 512
                  ++ chain_bytes disk disk_read_block reads reader.fat.header
                      reader.fat.end_sector_pos next clusters 0)
                (sym at.pos_at),
      )

  -- A sector that is not the last of the chain.
  pub next-Sector :
      (reader : Reader) (clusters : List ℕ) (sector : ℕ)
      → At reader clusters sector
      → 1 < left reader clusters sector
      → Sector reader clusters sector
  next-Sector reader [] sector at more = Sector-inside reader [] sector at (omega (arith, more))
  next-Sector reader (next ∷ clusters) sector at more =
      elim (dec_lt (sector + 1) reader.fat.header.sectors_per_cluster) [
        | yes lt ↦ Sector-inside reader (next ∷ clusters) sector at lt
        | no ge ↦ Sector-turn reader next clusters sector at (omega (arith, at.sector_in))
      ]
