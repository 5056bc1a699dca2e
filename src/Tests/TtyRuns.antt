-- ===== src/Tests/TtyRuns.antt =====
-- Runs of the screen of src/kernel/tty.c.
use asif_os.Prelude.{
  ℕ, ◌≡◌, arith, some, [], ◌∷◌, get_or, replicate, length-replicate, ◌/◌, ◌%◌, ◌^◌, take,
}
use asif_os.Tty.{Tty, video_siz, tty_white, make_char, putc}
use asif_os.Tty.Screen.{IsValid, putc-IsValid}

abbrev full : Tty
full = record { video_mem = replicate video_siz 0; char_idx = 1600; ports = [] }

full-IsValid : IsValid full
full-IsValid = record { room = length-replicate {A = ℕ} video_siz 0; idx_in = omega arith }

putc-IsValid_example :
    (t' : Tty) × (putc full 65 tty_white ≡ some t')
    × IsValid t'
    × ((t'.char_idx ≡ 1) × (get_or t'.video_mem 0 0 ≡ make_char 65 tty_white))
    × (take 4 t'.ports
        ≡ (0x3d5, t'.char_idx / 2 ^ 8)
          ∷ (0x3d4, 0x0e)
          ∷ (0x3d5, t'.char_idx % 2 ^ 8)
          ∷ (0x3d4, 0x0f)
          ∷ [])
putc-IsValid_example = putc-IsValid full 65 tty_white full-IsValid
