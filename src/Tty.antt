-- ===== src/Tty.antt =====
-- src/kernel/tty.c: the 80 by 20 text screen. The video memory is a list of its 1600 words, a write
-- outside of it is a fault (`none`), and `ports` is the sequence of port writes, newest first.
pub mod Screen
pub mod Message
use asif_os.Prelude.{
  ℕ, ◌+◌, ◌-◌, ◌*◌, ◌/◌, ◌%◌, ◌^◌, bit_or, bit_and, Option, none, some, List, [], ◌∷◌, ◌==◌, ltb,
  if◌then◌else◌, ◌>>=◌, store, zero, suc,
}

-- VIDEO_COL and VIDEO_SIZ
abbrev pub video_col : ℕ
video_col = 80

abbrev pub video_siz : ℕ
video_siz = 1600

-- TTY_WHITE
abbrev pub tty_white : ℕ
tty_white = 15

pub record Tty : Type 0 where
  pub video_mem : List ℕ
  pub char_idx : ℕ
  pub ports : List (ℕ × ℕ)

-- `tty_make_char`. The character byte is a signed `char`: from 0x80 on its sign fills the high byte.
unfoldable pub make_char : ℕ → ℕ → ℕ
make_char ch color = bit_or (color * 2 ^ 8 % 2 ^ 16) (if ltb ch 0x80 then ch else 0xff00 + ch)

-- The loop of `tty_clean`, `n` words before the end.
unfoldable pub clean_loop : List ℕ → ℕ → ℕ → Option (List ℕ)
unfolding make_char
clean_loop video i zero = some video
clean_loop video i (suc n) =
    store video i (make_char 0x20 tty_white) >>= λ video'. clean_loop video' (i + 1) n

-- `tty_clean`
unfoldable pub clean : Tty → Option Tty
unfolding clean_loop
clean t = clean_loop t.video_mem 0 video_siz >>= λ video. some (record t { video_mem = video })

-- `tty_reset`
unfoldable pub reset : Tty → Tty
reset t = record t { char_idx = 0 }

-- `tty_update_cursor`
unfoldable pub update_cursor : Tty → ℕ → Tty
update_cursor t pos = record t {
  ports =
      (0x3d5, bit_and (pos / 2 ^ 8) 0xff)
      ∷ (0x3d4, 0x0e)
      ∷ (0x3d5, bit_and pos 0xff)
      ∷ (0x3d4, 0x0f)
      ∷ t.ports;
}

-- The first statement of `tty_putc`: a full screen is cleared.
pub wrap_screen : Tty → Option Tty
wrap_screen t =
    if t.char_idx == video_siz
    then (clean t >>= λ t'. some (record t' { char_idx = 0 }))
    else some t

-- The rest of `tty_putc`.
pub put_char : Tty → ℕ → ℕ → Option Tty
unfolding make_char
put_char t ch color =
    if ch == 0x0a
    then some (record t { char_idx = (t.char_idx + (video_col - t.char_idx % video_col)) % 2 ^ 16 })
    else store t.video_mem t.char_idx (make_char ch color) >>= λ video.
        some (record t { video_mem = video; char_idx = (t.char_idx + 1) % 2 ^ 16 })

-- `tty_putc`
unfoldable pub putc : Tty → ℕ → ℕ → Option Tty
unfolding wrap_screen put_char update_cursor
putc t ch color =
    wrap_screen t >>= λ t1. put_char t1 ch color >>= λ t2. some (update_cursor t2 t2.char_idx)

-- `tty_rmc`
unfoldable pub rmc : Tty → Option Tty
unfolding make_char update_cursor
rmc t =
    if t.char_idx == 0
    then some t
    else store t.video_mem (t.char_idx - 1) (make_char 0x20 tty_white) >>= λ video.
        some (
          update_cursor (record t { video_mem = video; char_idx = t.char_idx - 1 })
            (t.char_idx - 1))

-- `putsk` and `putsck` of src/kernel/stdkern/kernio.c: the characters of a text, its NUL left off.
unfoldable pub puts : Tty → List ℕ → ℕ → Option Tty
puts t [] color = some t
puts t (ch ∷ str) color = putc t ch color >>= λ t'. puts t' str color
