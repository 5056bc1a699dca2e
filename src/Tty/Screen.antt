-- ===== src/Tty/Screen.antt =====
-- `tty_putc` of src/kernel/tty.c on a screen of 1600 words, and the word of a character.
use asif_os.Prelude.{
  pick_then, subst, ℕ, zero, suc, ◌+◌, ◌*◌, ◌/◌, ◌%◌, ◌^◌, ◌≤◌, ◌<◌, ◌≡◌, refl, ap, ap₂, ◌∙◌, some,
  Option, List, [], ◌∷◌, arith, length, length-set, set, take, get_or, get_or-set_self, store-set,
  ◌==◌, if◌then◌else◌, ◌>>=◌, ℕ_discrete,
}
use asif_os.Prelude.Bits.{bit_or_shifted, bit_and_mask}
use asif_os.Tty.{
  Tty, video_col, video_siz, tty_white, make_char, clean_loop, clean, update_cursor, wrap_screen,
  put_char, putc,
}

pub record IsValid (t : Tty) : Type 0 where
  pub room : length t.video_mem ≡ video_siz
  pub idx_in : t.char_idx ≤ video_siz

-- The colour and the character of an ASCII cell can be read back from its word.
pub make_char_fields :
    (ch color : ℕ)
    → ch < 0x80
    → color < 2 ^ 8
    → (make_char ch color / 2 ^ 8 ≡ color) × (make_char ch color % 2 ^ 8 ≡ ch)
unfolding make_char
make_char_fields ch color lt ltc =
    let small : color * 2 ^ 8 % 2 ^ 16 ≡ color * 2 ^ 8 = omega arith in
    ground (arith, small, bit_or_shifted 8 color ch (omega arith))

clean_loop_lem :
    (n i : ℕ) (video : List ℕ)
    → i + n ≤ length video
    → (video' : List ℕ) × (clean_loop video i n ≡ some video') × (length video' ≡ length video)
unfolding clean_loop
clean_loop_lem zero i video h = (video, refl, refl)
clean_loop_lem (suc n) i video h =
    let blank = make_char 0x20 tty_white in
    let len = length-set video i blank in
    let (video', done, l) = clean_loop_lem n (i + 1) (set video i blank) (omega arith) in
    (video', rw (store-set video i blank (omega arith)) done, l ∙ len)

clean_lem :
    (t : Tty)
    → IsValid t
    → (video : List ℕ) × (clean t ≡ some (record t { video_mem = video }))
      × (length video ≡ video_siz)
unfolding clean
clean_lem t v =
    let (video, done, l) = clean_loop_lem video_siz 0 t.video_mem (omega (arith, v.room)) in
    (video, rw done, l ∙ v.room)

-- After the first statement of `tty_putc` there is room for a character.
wrap_screen_lem :
    (t : Tty)
    → IsValid t
    → (t' : Tty) × (wrap_screen t ≡ some t') × IsValid t' × (t'.char_idx ≡ t.char_idx % video_siz)
unfolding wrap_screen
wrap_screen_lem t v = elim (ℕ_discrete t.char_idx video_siz) [
  | yes full ↦
      let (video, done, l) = clean_lem t v in
      let start_over : Tty → Option Tty = λ t'. some (record t' { char_idx = 0 }) in
      (
        record t { video_mem = video; char_idx = 0 },
        pick_then full (clean t >>= start_over) (some t) ∙ ap (λ m. m >>= start_over) done,
        record { room = l; idx_in = omega arith },
        omega arith,
      )
  | no fits ↦ (t, ground arith, v, omega arith)
]

put_char_lem :
    (t : Tty) (ch color : ℕ)
    → length t.video_mem ≡ video_siz
    → t.char_idx < video_siz
    → (t' : Tty) × (put_char t ch color ≡ some t')
      × IsValid t'
      × (t'.ports ≡ t.ports)
      × (if ch == 0x0a
          then t'.char_idx ≡ (t.char_idx / video_col + 1) * video_col
          else (t'.char_idx ≡ t.char_idx + 1)
            × (get_or t'.video_mem t.char_idx 0 ≡ make_char ch color))
unfolding put_char
put_char_lem t ch color room lt = elim (ℕ_discrete ch 0x0a) [
  | yes newline ↦ (
    record t { char_idx = (t.char_idx / video_col + 1) * video_col },
    ground (arith, lt),
    record { room = room; idx_in = omega arith },
    refl,
    ground (arith, newline),
  )
  | no plain ↦ (
    record t {
      video_mem = set t.video_mem t.char_idx (make_char ch color);
      char_idx = t.char_idx + 1;
    },
    ground (arith, lt, store-set t.video_mem t.char_idx (make_char ch color) (omega (arith, room))),
    record {
      room = length-set t.video_mem t.char_idx (make_char ch color) ∙ room;
      idx_in = omega arith;
    },
    refl,
    ground (
      arith,
      plain,
      get_or-set_self t.video_mem t.char_idx (make_char ch color) 0 (omega (arith, room)),
    ),
  )
]

-- On a valid screen `tty_putc` does not leave the video memory. It goes to the start of the next
-- row on a newline, and otherwise writes the character's word at the index (0 when the screen was
-- full) and moves one further; the screen stays valid, and the last four port writes send the
-- new index to the cursor registers, its low byte to 0x0f and its high byte to 0x0e.
pub putc-IsValid :
    (t : Tty) (ch color : ℕ)
    → IsValid t
    → (t' : Tty) × (putc t ch color ≡ some t')
      × IsValid t'
      × (let at = t.char_idx % video_siz in
          if ch == 0x0a
          then t'.char_idx ≡ (at / video_col + 1) * video_col
          else (t'.char_idx ≡ at + 1) × (get_or t'.video_mem at 0 ≡ make_char ch color))
      × (take 4 t'.ports
          ≡ (0x3d5, t'.char_idx / 2 ^ 8)
            ∷ (0x3d4, 0x0e)
            ∷ (0x3d5, t'.char_idx % 2 ^ 8)
            ∷ (0x3d4, 0x0f)
            ∷ [])
unfolding putc update_cursor
putc-IsValid t ch color v =
    let (t1, wrapped, v1, at) = wrap_screen_lem t v in
    let (t2, written, v2, same, moved) = put_char_lem t1 ch color v1.room (omega (arith, at)) in
    (
      update_cursor t2 t2.char_idx,
      rw (wrapped, written) refl,
      record { room = v2.room; idx_in = v2.idx_in },
      subst
          (λ i.
            if ch == 0x0a
            then t2.char_idx ≡ (i / video_col + 1) * video_col
            else (t2.char_idx ≡ i + 1) × (get_or t2.video_mem i 0 ≡ make_char ch color))
          at moved,
      ap₂ (λ (h l : ℕ). (0x3d5, h) ∷ (0x3d4, 0x0e) ∷ (0x3d5, l) ∷ (0x3d4, 0x0f) ∷ [])
          (bit_and_mask 8 (t2.char_idx / 2 ^ 8) ∙ omega (arith, v2.idx_in))
          (bit_and_mask 8 t2.char_idx),
    )
