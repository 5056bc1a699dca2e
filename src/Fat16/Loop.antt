-- ===== src/Fat16/Loop.antt =====
-- The loop of `fat16_read` of src/kernel/fs/fat16.c over a chain of clusters.
use asif_os.Prelude.{
  ltb_then, ltb_else, ℕ, zero, suc, ◌+◌, ◌-◌, ◌*◌, ◌≤◌, ◌<◌, ◌≡◌, refl, sym, ap, ap₂, ◌∙◌, arith,
  true, some, List, ◌++◌, ltb, if◌then◌else◌, length, take, drop, dec_lt, append-nil,
  take-append_front, take-append_behind,
}
use asif_os.Kern.Status.{Status, all_ok}
use asif_os.Stream.Read.{range, sector_bytes, length-range}
use asif_os.Fat16.Cluster.{Reader, read_internals}
use asif_os.Fat16.File.{put_front, overwrite, read_sectors}
use asif_os.Fat16.Chain.{left}
use asif_os.Fat16.Sector.{ahead, At, Sector, next-Sector}

module _ (disk : ℕ → ℕ) (disk_read_block : ℕ → Status × List ℕ)
    (reads : (sector : ℕ) → disk_read_block sector ≡ (all_ok, sector_bytes disk sector)) where
  -- One turn of the loop over a sector that is read whole.
  loop_turn :
      (sectors n : ℕ) (reader reader' : Reader) (buf : List ℕ) (p : ℕ)
      → read_internals disk_read_block reader ≡ some (true, reader', range disk p 512, 512)
      → read_sectors disk_read_block (suc sectors) reader buf n ≡ (
          if ltb n 512
          then some (record {
            complete = true;
            reader = reader';
            out = take n (overwrite (range disk p 512) buf);
          })
          else put_front (take 512 (overwrite (range disk p 512) buf)) (
              read_sectors disk_read_block sectors reader'
                (overwrite (range disk p 512) buf)
                (n - 512)))
  unfolding read_sectors
  loop_turn sectors n reader reader' buf p run = rw run refl

  turn_last :
      (n : ℕ) (buf rest : List ℕ) (p : ℕ)
      → n < 512
      → take n (overwrite (range disk p 512) buf) ≡ take n (range disk p 512 ++ rest)
  turn_last n buf rest p lt =
      let fits : n ≤ length (range disk p 512) = omega (arith, length-range disk p 512) in
      take-append_front n (range disk p 512) (drop (length (range disk p 512)) buf) fits
      ∙ sym (take-append_front n (range disk p 512) rest fits)

  turn_whole :
      (buf : List ℕ) (p : ℕ) → take 512 (overwrite (range disk p 512) buf) ≡ range disk p 512
  turn_whole buf p =
      take-append_behind 0 512 (range disk p 512) (drop (length (range disk p 512)) buf)
        (omega (arith, length-range disk p 512))
      ∙ append-nil (range disk p 512)

  -- The loop gives the front of the chain, when the sectors that it reads end before the chain does.
  pub read_sectors_lem :
      (sectors : ℕ) (reader : Reader) (clusters : List ℕ) (sector : ℕ) (buf : List ℕ) (n : ℕ)
      → At disk disk_read_block reads reader clusters sector
      → n ≤ sectors * 512
      → sectors * 512 < n + 512
      → sectors < left reader clusters sector
      → (reader' : Reader) × (read_sectors disk_read_block sectors reader buf n
          ≡ some (record {
            complete = true;
            reader = reader';
            out = take n (ahead disk disk_read_block reads reader clusters sector);
          }))
  unfolding read_sectors Sector
  read_sectors_lem zero reader clusters sector buf zero at le lt more = (reader, refl)
  read_sectors_lem zero reader clusters sector buf (suc n) at le lt more = absurd (omega arith)
  read_sectors_lem (suc sectors) reader clusters sector buf n at le lt more =
      let (reader', clusters', sector', run, at', fewer, bytes) =
        next-Sector disk disk_read_block reads reader clusters sector at (omega (arith, more)) in
      let p : ℕ = reader.fat.data_stream.pos in
      let buf' : List ℕ = overwrite (range disk p 512) buf in
      let run_turn = loop_turn sectors n reader reader' buf p run in
      elim (dec_lt n 512) [
        | yes small ↦ (
          reader',
          run_turn
              ∙ ltb_then small _ _
              ∙ ap (λ bytes. some (record { complete = true; reader = reader'; out = bytes }))
                  (turn_last n buf (ahead disk disk_read_block reads reader' clusters' sector') p
                      small
                    ∙ ap (take n) (sym bytes)),
        )
        | no big ↦
            let (last, rest) =
              read_sectors_lem sectors reader' clusters' sector' buf' (n - 512) at' (omega arith)
                (omega arith) (omega (arith, fewer, more)) in
            (
              last,
              run_turn
                  ∙ ltb_else {i = n} {k = 512} (omega arith) _ _
                  ∙ ap₂ put_front (turn_whole buf p) rest
                  ∙ ap (λ bytes. some (record { complete = true; reader = last; out = bytes }))
                      (sym (
                          take-append_behind (n - 512) n (range disk p 512)
                            (ahead disk disk_read_block reads reader' clusters' sector')
                            (omega (arith, length-range disk p 512)))
                        ∙ ap (take n) (sym bytes)),
            )
      ]
