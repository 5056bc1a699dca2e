-- ===== src/Disk/Serve.antt =====
-- A disk that answers, and the read of src/kernel/disk/disk.c from it.
use asif_os.Prelude.{
  ℕ, zero, suc, ◌<◌, ◌≡◌, ◌≢◌, refl, ◌∙◌, arith, some, List, [], ◌∷◌, ◌++◌, bit_and, length,
  pick_then, pick_else, All,
}
use asif_os.Kern.Status.{all_ok}
use asif_os.Io.{answers_at}
use asif_os.Disk.{request, wait_ready, read_words, read_loop, read_sectors}

-- What a disk answers for a sector: it is busy for a while, it is ready, and it gives the words.
pub record Served : Type 0 where
  pub busy : List ℕ
  pub ready : ℕ
  pub words : List ℕ

pub record IsServed (fuel : ℕ) (sector : Served) : Type 0 where
  pub is_busy : All (λ response. bit_and response 0x8 ≡ 0) sector.busy
  pub is_ready : bit_and sector.ready 0x8 ≢ 0
  pub whole : length sector.words ≡ 256
  pub in_time : length sector.busy < fuel

abbrev pub serve : List Served → List (ℕ × ℕ) → List (ℕ × ℕ)
serve [] after = after
serve (sector ∷ sectors) after =
    answers_at 0x1f7 sector.busy
      ((0x1f7, sector.ready) ∷ answers_at 0x1f0 sector.words (serve sectors after))

abbrev pub all_words : List Served → List ℕ
all_words [] = []
all_words (sector ∷ sectors) = sector.words ++ all_words sectors

wait_ready_lem :
    (fuel : ℕ) (busy : List ℕ) (ready : ℕ) (after writes : List (ℕ × ℕ))
    → All (λ response. bit_and response 0x8 ≡ 0) busy
    → bit_and ready 0x8 ≢ 0
    → length busy < fuel
    → wait_ready fuel
        (record { answers = answers_at 0x1f7 busy ((0x1f7, ready) ∷ after); writes = writes })
      ≡ some (record { answers = after; writes = writes })
unfolding wait_ready
wait_ready_lem zero busy ready after writes is_busy is_ready lt = absurd (omega arith)
wait_ready_lem (suc fuel) [] ready after writes is_busy is_ready lt = pick_else is_ready _ _
wait_ready_lem (suc fuel) (b ∷ busy) ready after writes is_busy is_ready lt =
    pick_then is_busy.0 _ _
    ∙ wait_ready_lem fuel busy ready after writes is_busy.1 is_ready (omega arith)

read_words_lem :
    (words : List ℕ) (n : ℕ) (after writes : List (ℕ × ℕ))
    → length words ≡ n
    → read_words n (record { answers = answers_at 0x1f0 words after; writes = writes })
      ≡ some (words, record { answers = after; writes = writes })
unfolding read_words
read_words_lem [] zero after writes e = refl
read_words_lem [] (suc n) after writes e = absurd (omega arith)
read_words_lem (w ∷ words) zero after writes e = absurd (omega arith)
read_words_lem (w ∷ words) (suc n) after writes e =
    rw (read_words_lem words n after writes (omega arith)) refl

read_loop_lem :
    (fuel : ℕ) (sectors : List Served) (after writes : List (ℕ × ℕ))
    → All (IsServed fuel) sectors
    → read_loop fuel (length sectors) (record { answers = serve sectors after; writes = writes })
      ≡ some (all_words sectors, record { answers = after; writes = writes })
unfolding read_loop
read_loop_lem fuel [] after writes good = refl
read_loop_lem fuel (sector ∷ sectors) after writes (good, rest) =
    rw
      (
        wait_ready_lem fuel sector.busy sector.ready
            (answers_at 0x1f0 sector.words (serve sectors after)) writes good.is_busy good.is_ready
            good.in_time,
        read_words_lem sector.words 256 (serve sectors after) writes good.whole,
        read_loop_lem fuel sectors after writes rest,
      )
      refl

-- A disk that gets ready for each sector within the reads of its status that are granted is read to
-- the end: the words of all the sectors, in order.
pub read_sectors-all_words :
    (fuel lba : ℕ) (sectors : List Served) (after : List (ℕ × ℕ))
    → All (IsServed fuel) sectors
    → (writes : List (ℕ × ℕ)) × (read_sectors fuel lba
          (length sectors)
          (record { answers = serve sectors after; writes = [] })
        ≡ some (all_ok, all_words sectors, record { answers = after; writes = writes }))
unfolding read_sectors
read_sectors-all_words fuel lba sectors after good =
    let sent : List (ℕ × ℕ) =
      (request lba (length sectors) (record { answers = []; writes = [] })).writes in
    (sent, rw (read_loop_lem fuel sectors after sent good) refl)
