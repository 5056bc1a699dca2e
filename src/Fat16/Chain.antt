-- ===== src/Fat16/Chain.antt =====
-- The bytes of a chain of clusters, which src/kernel/fs/fat16.c follows through its table.
use asif_os.Prelude.{
  ℕ, ◌+◌, ◌-◌, ◌*◌, ◌<◌, ◌≡◌, sym, ap, ◌∙◌, arith, List, [], ◌∷◌, ◌++◌, length, append_assoc,
  length-append,
}
use asif_os.Kern.Status.{Status, all_ok}
use asif_os.Stream.Read.{range, sector_bytes, length-range, range-append}
use asif_os.Fat16.{FatHeader}
use asif_os.Fat16.Cluster.{Reader}
use asif_os.Fat16.Follow.{Placed, first_sector, table_entry}

-- The number of sectors of a chain, from a sector of its first cluster on.
abbrev pub sectors_left : (spc : ℕ) → List ℕ → (sector : ℕ) → ℕ
sectors_left spc [] sector = spc - sector
sectors_left spc (next ∷ clusters) sector = spc - sector + sectors_left spc clusters 0

abbrev pub left : Reader → List ℕ → ℕ → ℕ
left reader clusters sector = sectors_left reader.fat.header.sectors_per_cluster clusters sector

pub left_inside :
    (spc : ℕ) (clusters : List ℕ) (sector : ℕ)
    → sector + 1 < spc
    → sectors_left spc clusters sector ≡ sectors_left spc clusters (sector + 1) + 1
left_inside spc [] sector lt = omega arith
left_inside spc (next ∷ clusters) sector lt = omega arith

module _ (disk : ℕ → ℕ) (disk_read_block : ℕ → Status × List ℕ)
    (reads : (sector : ℕ) → disk_read_block sector ≡ (all_ok, sector_bytes disk sector)) where
  -- A chain of clusters: each is placed, and the table leads from each to the next. The table's entry
  -- of the last one may be anything.
  abbrev pub Linked : FatHeader → ℕ → ℕ → List ℕ → Type 0
  Linked header end cluster [] = Placed header end cluster
  Linked header end cluster (next ∷ clusters) =
      Placed header end cluster
      × (table_entry disk disk_read_block reads header cluster ≡ next)
      × Linked header end next clusters

  pub Linked-Placed :
      (header : FatHeader) (end cluster : ℕ) (clusters : List ℕ)
      → Linked header end cluster clusters
      → Placed header end cluster
  Linked-Placed header end cluster [] l = l
  Linked-Placed header end cluster (next ∷ clusters) l = l.0

  -- The bytes of a chain, from a sector of its first cluster on.
  abbrev pub chain_bytes : FatHeader → ℕ → ℕ → List ℕ → (sector : ℕ) → List ℕ
  chain_bytes header end cluster [] sector =
      range disk ((first_sector header end cluster + sector) * 512)
        ((header.sectors_per_cluster - sector) * 512)
  chain_bytes header end cluster (next ∷ clusters) sector =
      range disk ((first_sector header end cluster + sector) * 512)
        ((header.sectors_per_cluster - sector) * 512)
      ++ chain_bytes header end next clusters 0

  -- The rest of a cluster is a sector and what is behind it.
  cluster_rest :
      (start spc sector : ℕ)
      → sector < spc
      → range disk ((start + sector) * 512) ((spc - sector) * 512)
        ≡ range disk ((start + sector) * 512) 512
          ++ range disk ((start + (sector + 1)) * 512) ((spc - (sector + 1)) * 512)
  cluster_rest start spc sector lt =
      let here = (start + sector) * 512 in
      let later = (start + (sector + 1)) * 512 in
      sym (
        range-append disk here later 512 ((spc - (sector + 1)) * 512) ((spc - sector) * 512)
          (omega arith) (omega arith))

  pub chain_rest :
      (header : FatHeader) (end cluster : ℕ) (clusters : List ℕ) (sector : ℕ)
      → sector < header.sectors_per_cluster
      → chain_bytes header end cluster clusters sector
        ≡ range disk ((first_sector header end cluster + sector) * 512) 512
          ++ chain_bytes header end cluster clusters (sector + 1)
  chain_rest header end cluster [] sector lt =
      cluster_rest (first_sector header end cluster) header.sectors_per_cluster sector lt
  chain_rest header end cluster (next ∷ clusters) sector lt =
      ap (λ bytes. bytes ++ chain_bytes header end next clusters 0)
        (cluster_rest (first_sector header end cluster) header.sectors_per_cluster sector lt)
      ∙ append_assoc (range disk ((first_sector header end cluster + sector) * 512) 512)
          (range disk ((first_sector header end cluster + (sector + 1)) * 512)
            ((header.sectors_per_cluster - (sector + 1)) * 512))
          (chain_bytes header end next clusters 0)

  pub length-chain_bytes :
      (header : FatHeader) (end cluster : ℕ) (clusters : List ℕ) (sector : ℕ)
      → length (chain_bytes header end cluster clusters sector)
        ≡ sectors_left header.sectors_per_cluster clusters sector * 512
  length-chain_bytes header end cluster [] sector =
      length-range disk ((first_sector header end cluster + sector) * 512)
        ((header.sectors_per_cluster - sector) * 512)
  length-chain_bytes header end cluster (next ∷ clusters) sector =
      let here : ℕ = (header.sectors_per_cluster - sector) * 512 in
      let at : ℕ = (first_sector header end cluster + sector) * 512 in
      let first = length-range disk at here in
      let rest = length-chain_bytes header end next clusters 0 in
      let both = length-append (range disk at here) (chain_bytes header end next clusters 0) in
      omega (arith, first, rest, both)
