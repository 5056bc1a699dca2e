-- ===== src/Fat16/Name.antt =====
-- `fat16_get_plain_item_name` of src/kernel/fs/fat16.c: the name of a directory entry as a text.
use asif_os.Prelude.{
  ℕ, zero, suc, ◌+◌, ◌-◌, ◌≤◌, ◌<◌, ◌≡◌, ◌≢◌, refl, sym, ap, ◌∙◌, arith, Option, none, some, List,
  [], ◌∷◌, ◌++◌, All, ◌==◌, ltb, if◌then◌else◌, ◌>>=◌, length, length-append, length-replicate,
  drop, replicate, append_assoc, append-nil, dec_lt, >>=-eq-some, some_inj, Bool-cases, inl, inr,
  pick_else, All-append,
}

abbrev pub blank : ℕ
blank = 0x20

-- The characters up to a NUL or a blank: `none` where the memory ends before.
unfoldable pub until_blank : List ℕ → Option (List ℕ)
until_blank [] = none
until_blank (ch ∷ rest) =
    let more = until_blank rest >>= λ chs. some (ch ∷ chs) in
    if ch == 0 then some [] else if ch == blank then some [] else more

-- The point in front of an extension.
abbrev pub dotted : List ℕ → List ℕ
dotted [] = []
dotted (ch ∷ extension) = 0x2e ∷ ch ∷ extension

-- The room of `tmp_name`, its NUL included.
abbrev pub name_room : ℕ
name_room = 128

-- `fat16_get_plain_item_name` of the entry at a memory.
unfoldable pub plain_item_name : List ℕ → Option (List ℕ)
plain_item_name entry = until_blank entry >>= λ filename.
    until_blank (drop 8 entry) >>= λ extension.
    let name = filename ++ dotted extension in
    if ltb (length name) name_room then some name else none

-- A field of `n` bytes, filled up with blanks.
abbrev pub padded : ℕ → List ℕ → List ℕ
padded n chs = chs ++ replicate (n - length chs) blank

abbrev pub IsNameChar : ℕ → Type 0
IsNameChar ch = (ch ≢ 0) × (ch ≢ blank)

until_blank-append :
    (chs : List ℕ) (end : ℕ) (rest : List ℕ)
    → All IsNameChar chs
    → (end ≢ 0 → end ≡ blank)
    → until_blank (chs ++ (end ∷ rest)) ≡ some chs
unfolding until_blank
until_blank-append [] end rest h e = ground (arith, e)
until_blank-append (ch ∷ chs) end rest ((some_char, no_blank), h) e =
    ground (arith, some_char, no_blank, until_blank-append chs end rest h e)

pub drop-append : {A : Type 0} (k : ℕ) (xs ys : List A) → k ≡ length xs → drop k (xs ++ ys) ≡ ys
drop-append zero [] ys e = refl
drop-append zero (x ∷ xs) ys e = absurd (omega arith)
drop-append (suc k) [] ys e = absurd (omega arith)
drop-append (suc k) (x ∷ xs) ys e = drop-append k xs ys (omega arith)

length-padded : (n : ℕ) (chs : List ℕ) → length chs ≤ n → n ≡ length (padded n chs)
length-padded n chs le = omega (
  arith,
  length-append chs (replicate (n - length chs) blank),
  length-replicate {A = ℕ} (n - length chs) blank,
)

-- A field that is not full ends in a blank.
until_blank-padded :
    (n : ℕ) (chs rest : List ℕ)
    → All IsNameChar chs
    → length chs < n
    → until_blank (padded n chs ++ rest) ≡ some chs
until_blank-padded n chs rest h lt =
    let more : n - length chs ≡ suc (n - length chs - 1) = omega arith in
    ap until_blank (
      append_assoc chs (replicate (n - length chs) blank) rest
      ∙ ap (λ k. chs ++ (replicate k blank ++ rest)) more)
    ∙ until_blank-append chs blank (replicate (n - length chs - 1) blank ++ rest) h (λ _. refl)

-- A field that is full ends at the byte behind it, if that is a NUL or a blank.
until_blank-field :
    (n : ℕ) (chs : List ℕ) (end : ℕ) (rest : List ℕ)
    → All IsNameChar chs
    → length chs ≤ n
    → (length chs ≡ n → end ≢ 0 → end ≡ blank)
    → until_blank (padded n chs ++ (end ∷ rest)) ≡ some chs
until_blank-field n chs end rest h le ends = elim (dec_lt (length chs) n) [
  | yes lt ↦ until_blank-padded n chs (end ∷ rest) h lt
  | no full ↦
      let none_left : n - length chs ≡ 0 = omega arith in
      ap (λ k. until_blank ((chs ++ replicate k blank) ++ (end ∷ rest))) none_left
      ∙ ap (λ front. until_blank (front ++ (end ∷ rest))) (append-nil chs)
      ∙ until_blank-append chs end rest h (ends (omega arith))
]

-- The entry of a file: its two name fields, its attributes and the rest.
abbrev pub make_entry : List ℕ → List ℕ → ℕ → List ℕ → List ℕ
make_entry filename extension attributes rest =
    padded 8 filename ++ (padded 3 extension ++ (attributes ∷ rest))

length-dotted : (extension : List ℕ) → length (dotted extension) ≤ length extension + 1
length-dotted [] = omega arith
length-dotted (ch ∷ extension) = omega arith

-- The name of an entry is read right when the file name has fewer than eight characters and the
-- extension at most three, none of them a NUL or a blank, and an extension of three has an
-- attribute byte behind it that is a NUL or a blank (0x20, an archive).
pub plain_item_name_lem :
    (filename extension : List ℕ) (attributes : ℕ) (rest : List ℕ)
    → All IsNameChar filename
    → length filename < 8
    → All IsNameChar extension
    → length extension ≤ 3
    → (length extension ≡ 3 → attributes ≢ 0 → attributes ≡ blank)
    → plain_item_name (make_entry filename extension attributes rest)
      ≡ some (filename ++ dotted extension)
unfolding plain_item_name
plain_item_name_lem filename extension attributes rest h lt h' le ends =
    let behind : List ℕ = padded 3 extension ++ (attributes ∷ rest) in
    let at = drop-append 8 (padded 8 filename) behind (length-padded 8 filename (omega arith)) in
    rw
      (
        until_blank-padded 8 filename behind h lt,
        at,
        until_blank-field 3 extension attributes rest h' le ends,
      )
      (ground (arith, length-append filename (dotted extension), length-dotted extension))

dotted_some :
    (extension : List ℕ) → 0 < length extension → length (dotted extension) ≡ length extension + 1
dotted_some [] lt = absurd (omega arith)
dotted_some (ch ∷ extension) lt = omega arith

until_blank-longer :
    (chs rest r : List ℕ)
    → All IsNameChar chs
    → until_blank (chs ++ rest) ≡ some r
    → length chs ≤ length r
unfolding until_blank
until_blank-longer [] rest r h e = omega arith
until_blank-longer (ch ∷ chs) rest r ((some_char, no_blank), h) e =
    let more = until_blank (chs ++ rest) >>= λ cs. some (ch ∷ cs) in
    let passed : more ≡ some r =
      sym (
        pick_else some_char (some []) (if ch == blank then some [] else more)
        ∙ pick_else no_blank (some []) more)
      ∙ e in
    let (cs, e1, e2) = >>=-eq-some (until_blank (chs ++ rest)) (λ cs. some (ch ∷ cs)) passed in
    omega (arith, until_blank-longer chs rest cs h e1, ap length (some_inj e2))

-- What the driver's name has to do with the characters that it reads for the extension.
name_of :
    (filename extension name : List ℕ)
    → (if ltb (length (filename ++ dotted extension)) name_room
        then some (filename ++ dotted extension)
        else none)
      ≡ some name
    → name ≡ filename ++ dotted extension
name_of filename extension name e =
    elim (Bool-cases (ltb (length (filename ++ dotted extension)) name_room)) [
      | inl fits ↦ sym (some_inj (rw fits at e))
      | inr long ↦ elim (nothing (rw long at e)) [ ]
    ]
  where
    nothing : none ≡ some name → ⊥
    nothing e = cc

full_field :
    (chs : List ℕ) (end : ℕ) (rest : List ℕ)
    → length chs ≡ 3
    → padded 3 chs ++ (end ∷ rest) ≡ (chs ++ (end ∷ [])) ++ rest
full_field (a ∷ b ∷ c ∷ []) end rest full = refl
full_field (a ∷ b ∷ c ∷ d ∷ chs) end rest full = absurd (omega arith)
full_field [] end rest full = absurd (omega arith)
full_field (a ∷ []) end rest full = absurd (omega arith)
full_field (a ∷ b ∷ []) end rest full = absurd (omega arith)

-- With an extension of three characters, an attribute byte that is neither a NUL nor a blank is read
-- as a character of the name: the name that comes out is longer than the file's.
pub plain_item_name-longer :
    (filename extension : List ℕ) (attributes : ℕ) (rest name : List ℕ)
    → All IsNameChar filename
    → length filename < 8
    → All IsNameChar extension
    → length extension ≡ 3
    → IsNameChar attributes
    → plain_item_name (make_entry filename extension attributes rest) ≡ some name
    → length (filename ++ dotted extension) < length name
unfolding plain_item_name
plain_item_name-longer filename extension attributes rest name h lt h' full h'' e =
    let behind : List ℕ = padded 3 extension ++ (attributes ∷ rest) in
    let at = drop-append 8 (padded 8 filename) behind (length-padded 8 filename (omega arith)) in
    let (read, e1, e2) =
      >>=-eq-some (until_blank behind) _
        (rw (until_blank-padded 8 filename behind h lt, at) at e) in
    let chars : All IsNameChar (extension ++ (attributes ∷ [])) =
      All-append IsNameChar extension (attributes ∷ []) h' (h'', tt) in
    let long =
      until_blank-longer (extension ++ (attributes ∷ [])) rest read chars
        (ap until_blank (sym (full_field extension attributes rest full)) ∙ e1) in
    omega (
      arith,
      long,
      ap length (name_of filename read name e2),
      length-append extension (attributes ∷ []),
      length-append filename (dotted read),
      length-append filename (dotted extension),
      length-dotted extension,
      dotted_some read,
    )
