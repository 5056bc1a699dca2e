-- ===== src/Pparser/Parts.antt =====
-- src/kernel/fs/pparser.c against printed paths.
use asif_os.Prelude.{
  pick_else, ℕ, zero, suc, ◌+◌, ◌≤◌, ◌<◌, ◌≡◌, ◌≢◌, refl, ap₂, ◌∙◌, arith, Option, some, List, [],
  ◌∷◌, ◌++◌, ◌>>=◌, length, length-append, All,
}
use asif_os.Kern.Status.{ebadpath, enomem, ok, err}
use asif_os.Pparser.{
  slash, PathPart, NuttlePath, split_part, block_size, fill_part, extract_path_part, make_path_part,
  parse_parts, get_path, parse_rest, parse_drive, parse_path, extract_drive_number, is_valid_path,
  max_path_size, make_node,
}

-- A component: not empty, without a separator, and short enough for its block.
pub record IsPart (part : List ℕ) : Type 0 where
  pub some_char : 0 < length part
  pub fits : length part < block_size
  pub no_slash : All (λ ch. ch ≢ slash) part

abbrev pub print_parts : List (List ℕ) → List ℕ
print_parts [] = []
print_parts (part ∷ []) = part
print_parts (part ∷ next ∷ parts) = part ++ (slash ∷ print_parts (next ∷ parts))

-- The path with the components `parts` on a drive.
abbrev pub print_path : ℕ → List (List ℕ) → List ℕ
print_path drive parts = (0x30 + drive) ∷ 0x3a ∷ slash ∷ print_parts parts

abbrev pub texts : List PathPart → List (List ℕ)
texts [] = []
texts (part ∷ parts) = part.part ∷ texts parts

-- The allocations for the components, before `k` more.
abbrev pub rooms : List (List ℕ) → ℕ → ℕ
rooms [] k = suc k
rooms (part ∷ parts) k = suc (suc (rooms parts k))

split_part-append :
    (part rest : List ℕ)
    → All (λ ch. ch ≢ slash) part
    → split_part (part ++ (slash ∷ rest)) ≡ (part, rest)
unfolding split_part
split_part-append [] rest h = refl
split_part-append (ch ∷ part) rest (ne, h) = ground (arith, ne, split_part-append part rest h)

split_part_last : (part : List ℕ) → All (λ ch. ch ≢ slash) part → split_part part ≡ (part, [])
unfolding split_part
split_part_last [] h = refl
split_part_last (ch ∷ part) (ne, h) = ground (arith, ne, split_part_last part h)

-- The first component of a printed path, and the rest.
split_part-print :
    (part : List ℕ) (parts : List (List ℕ))
    → IsPart part
    → (split_part (print_parts (part ∷ parts)) ≡ (part, print_parts parts))
      × (length (print_parts parts) < length (print_parts (part ∷ parts)))
split_part-print part [] h = (split_part_last part h.no_slash, h.some_char)
split_part-print part (next ∷ parts) h = (
  split_part-append part (print_parts (next ∷ parts)) h.no_slash,
  omega (arith, length-append part (slash ∷ print_parts (next ∷ parts))),
)

extract_drive_number-print :
    (drive : ℕ) (parts : List (List ℕ))
    → drive < 10
    → extract_drive_number (print_path drive parts) ≡ ok (drive, print_parts parts)
unfolding extract_drive_number is_valid_path
extract_drive_number-print drive parts lt = ground arith

-- `Room k s`: the next `k` allocations of at most a block succeed.
module _ {S : Type 0} (malloc : S → ℕ → Option (ℕ × S)) (Room : ℕ → S → Type 0)
    (room : (k n : ℕ) (s : S)
      → 0 < n
      → n ≤ block_size
      → Room (suc k) s
      → (ptr : ℕ) × (s' : S) × (malloc s n ≡ some (ptr, s')) × (ptr ≢ 0) × Room k s') where
  fill_part_lem :
      (ptr : ℕ) (str part rest : List ℕ)
      → split_part str ≡ (part, rest)
      → length part < block_size
      → ptr ≢ 0
      → fill_part malloc str ptr ≡ some (ok (part, ptr, rest))
  unfolding fill_part
  fill_part_lem ptr str part rest split lt given = ground (arith, split, lt, given)

  extract_path_part_lem :
      (k : ℕ) (s : S) (str part rest : List ℕ)
      → 0 < length str
      → split_part str ≡ (part, rest)
      → length part < block_size
      → Room (suc k) s
      → (ptr : ℕ) × (s' : S) × (extract_path_part malloc s str ≡ some (ok (part, ptr, rest), s'))
        × Room k s'
  unfolding extract_path_part
  extract_path_part_lem k s [] part rest pos split lt r = absurd (omega arith)
  extract_path_part_lem k s (ch ∷ str) part rest pos split lt r =
      let (ptr, s', got, given, r') = room k max_path_size s (omega arith) (omega arith) r in
      (ptr, s', rw (got, fill_part_lem ptr (ch ∷ str) part rest split lt given) refl, r')

  make_path_part_lem :
      (k : ℕ) (s : S) (str part rest : List ℕ)
      → 0 < length str
      → split_part str ≡ (part, rest)
      → length part < block_size
      → Room (suc (suc k)) s
      → (node : PathPart) × (s' : S) × (make_path_part malloc s str ≡ some (ok (node, rest), s'))
        × (node.part ≡ part)
        × Room k s'
  unfolding make_path_part
  make_path_part_lem k s str part rest pos split lt r =
      let (node, s', got, given, r') = room (suc k) 8 s (omega arith) (omega arith) r in
      let (ptr, s'', extracted, r'') = extract_path_part_lem k s' str part rest pos split lt r' in
      (
        record { part = part; part_ptr = ptr; node_ptr = node },
        s'',
        rw got (
            pick_else given (some (err enomem, s'))
              (extract_path_part malloc s' str >>= λ (res, t). some (make_node malloc node res, t))
            ∙ rw extracted refl),
        refl,
        r'',
      )

  -- At the end of the text a node has been allocated, and is not freed.
  make_path_part_end :
      (k : ℕ) (s : S)
      → Room (suc k) s
      → (s' : S) × (make_path_part malloc s [] ≡ some (err ebadpath, s')) × Room k s'
  unfolding make_path_part extract_path_part
  make_path_part_end k s r =
      let (node, s', got, given, r') = room k 8 s (omega arith) (omega arith) r in
      (s', rw got (pick_else given (some (err enomem, s')) (some (err ebadpath, s'))), r')

  parse_parts_lem :
      (parts : List (List ℕ)) (k fuel : ℕ) (s : S)
      → All IsPart parts
      → length (print_parts parts) < fuel
      → Room (rooms parts k) s
      → (nodes : List PathPart) × (s' : S) × (parse_parts malloc fuel s (print_parts parts)
          ≡ some (nodes, s'))
        × (texts nodes ≡ parts)
        × Room k s'
  unfolding parse_parts
  parse_parts_lem parts k zero s h lt r = absurd (omega arith)
  parse_parts_lem [] k (suc fuel) s h lt r =
      let (s', ended, r') = make_path_part_end k s r in ([], s', rw ended refl, refl, r')
  parse_parts_lem (part ∷ parts) k (suc fuel) s (here, h) lt r =
      let (split, shorter) = split_part-print part parts here in
      let (node, s1, made, text, r1) =
        make_path_part_lem (rooms parts k) s (print_parts (part ∷ parts)) part (print_parts parts)
          (omega arith) split here.fits r in
      let (nodes, s2, rest, same, r2) = parse_parts_lem parts k fuel s1 h (omega arith) r1 in
      (node ∷ nodes, s2, rw (made, rest) refl, ap₂ ◌∷◌ text same, r2)

  get_path_lem :
      (k : ℕ) (s : S) (drive : ℕ) (nodes : List PathPart)
      → Room (suc k) s
      → (ptr : ℕ) × (s' : S) × (get_path malloc s drive nodes
          ≡ some (ok (record { drive_no = drive; parts = nodes; path_ptr = ptr }), s'))
        × Room k s'
  unfolding get_path
  get_path_lem k s drive nodes r =
      let (ptr, s', got, given, r') = room k 8 s (omega arith) (omega arith) r in
      (
        ptr,
        s',
        rw got (
            pick_else given (some (err enomem, s'))
              (some (ok (record { drive_no = drive; parts = nodes; path_ptr = ptr }), s'))),
        r',
      )

  parse_drive_lem :
      (s : S) (drive : ℕ) (str : List ℕ)
      → 0 < length str
      → parse_drive malloc s (ok (drive, str))
        ≡ (make_path_part malloc s str >>= parse_rest malloc drive)
  unfolding parse_drive
  parse_drive_lem s drive [] pos = absurd (omega arith)
  parse_drive_lem s drive (ch ∷ str) pos = refl

  -- The components, then the path.
  parse_some :
      (s : S) (drive : ℕ) (part : List ℕ) (parts : List (List ℕ))
      → All IsPart (part ∷ parts)
      → Room (rooms (part ∷ parts) 1) s
      → (path : NuttlePath) × (s' : S) × (parse_drive malloc s
            (ok (drive, print_parts (part ∷ parts)))
          ≡ some (ok path, s'))
        × (path.drive_no ≡ drive)
        × (texts path.parts ≡ part ∷ parts)
  unfolding parse_rest
  parse_some s drive part parts (here, h) r =
      let (split, shorter) = split_part-print part parts here in
      let str = print_parts (part ∷ parts) in
      let pos : 0 < length str = omega arith in
      let (node, s1, made, text, r1) =
        make_path_part_lem (rooms parts 1) s str part (print_parts parts) pos split here.fits r in
      let (nodes, s2, rest, same, r2) =
        parse_parts_lem parts 1 (length (print_parts parts) + 1) s1 h (omega arith) r1 in
      let (ptr, s3, got, r3) = get_path_lem 0 s2 drive (node ∷ nodes) r2 in
      (
        record { drive_no = drive; parts = node ∷ nodes; path_ptr = ptr },
        s3,
        parse_drive_lem s drive str pos ∙ rw (made, rest, got) refl,
        refl,
        ap₂ ◌∷◌ text same,
      )

  -- A path that is printed from a drive of one digit and components that are not empty, have no
  -- separator and are shorter than a block is parsed, and the result has that drive and those components, in order.
  -- This is for an allocator with memory for two blocks for each component and two more.
  pub parse-print :
      (drive : ℕ) (parts : List (List ℕ)) (s : S)
      → drive < 10
      → All IsPart parts
      → Room (rooms parts 1) s
      → (path : NuttlePath) × (s' : S) × (parse_path malloc s (print_path drive parts)
          ≡ some (ok path, s'))
        × (path.drive_no ≡ drive)
        × (texts path.parts ≡ parts)
  unfolding parse_path parse_drive
  parse-print drive [] s lt h r =
      let (ptr, s', got, r') = get_path_lem 1 s drive [] r in
      (
        record { drive_no = drive; parts = []; path_ptr = ptr },
        s',
        rw (extract_drive_number-print drive [] lt) got,
        refl,
        refl,
      )
  parse-print drive (part ∷ parts) s lt h r =
      let (path, s', parsed, same, same') = parse_some s drive part parts h r in
      (path, s', rw (extract_drive_number-print drive (part ∷ parts) lt) parsed, same, same')
