-- ===== src/Pparser.antt =====
-- src/kernel/fs/pparser.c: paths such as 0:/bin/shell. A text is the list of its characters, its NUL
-- left off. The allocator is a parameter: `malloc` answers 0 when it has no memory. A component is
-- written to a block of 4096 bytes, and one that does not fit is a fault (`none`).
pub mod Parts
use asif_os.Prelude.{
  ℕ, zero, suc, ◌+◌, ◌-◌, ◌≤◌, Bool, true, false, Option, none, some, List, [], ◌∷◌, ◌==◌, ltb, leb,
  if◌then◌else◌, ◌>>=◌, length, drop, ◌++◌,
}
use asif_os.Kern.Str.{strnlenk}
use asif_os.Kern.Status.{Status, all_ok, ebadpath, enomem, Code, ok, err}

-- NUTTLE_MAX_PATH_SIZE
abbrev pub max_path_size : ℕ
max_path_size = 128

abbrev pub slash : ℕ
slash = 0x2f

-- `is_digit`
abbrev pub is_digit : ℕ → Bool
is_digit ch = if leb 0x30 ch then leb ch 0x39 else false

-- `memcmpk(filepath + 1, ":/", 2)`
abbrev pub has_root : List ℕ → Bool
has_root (digit ∷ colon ∷ root ∷ rest) = if colon == 0x3a then root == slash else false
has_root _ = false

abbrev pub first_char : List ℕ → ℕ
first_char [] = 0
first_char (ch ∷ rest) = ch

-- `pparser_is_valid_path`
unfoldable pub is_valid_path : List ℕ → Bool
is_valid_path filepath =
    if leb 3 (strnlenk filepath max_path_size)
    then if is_digit (first_char filepath) then has_root filepath else false
    else false

-- `pparser_extract_drive_number`: the drive, and the rest of the text.
unfoldable pub extract_drive_number : List ℕ → Code (ℕ × List ℕ)
unfolding is_valid_path
extract_drive_number filepath =
    if is_valid_path filepath
    then ok (first_char filepath - 0x30, drop 3 filepath)
    else err ebadpath

-- `PathPart`: its text, the block of the text and the block of the node.
pub record PathPart : Type 0 where
  pub part : List ℕ
  pub part_ptr : ℕ
  pub node_ptr : ℕ

-- `NuttlePath`
pub record NuttlePath : Type 0 where
  pub drive_no : ℕ
  pub parts : List PathPart
  pub path_ptr : ℕ

-- The loop of `pparser_extract_path_part` and the step over the separator: the component and the
-- rest.
unfoldable pub split_part : List ℕ → List ℕ × List ℕ
split_part [] = ([], [])
split_part (ch ∷ rest) =
    let (part, rest') = split_part rest in if ch == slash then ([], rest) else (ch ∷ part, rest')

-- The room of the block that a component is written to.
abbrev pub block_size : ℕ
block_size = 4096

module _ {S : Type 0} (malloc : S → ℕ → Option (ℕ × S)) where
  -- `pparser_extract_path_part` behind its test for the end, with the block it was given.
  pub fill_part : List ℕ → ℕ → Option (Code (List ℕ × ℕ × List ℕ))
  fill_part filepath ptr =
      let (part, rest) = split_part filepath in
      if ptr == 0
      then some (err enomem)
      else if ltb (length part) block_size
      then some (ok (part, ptr, rest))
      else none

  -- `pparser_extract_path_part`
  unfoldable pub extract_path_part : S → List ℕ → Option (Code (List ℕ × ℕ × List ℕ) × S)
  unfolding fill_part
  extract_path_part s [] = some (err ebadpath, s)
  extract_path_part s (ch ∷ rest) =
      malloc s max_path_size >>= λ (ptr, s'). fill_part (ch ∷ rest) ptr >>= λ res. some (res, s')

  -- The end of `pparser_make_path_part`.
  abbrev pub make_node : ℕ → Code (List ℕ × ℕ × List ℕ) → Code (PathPart × List ℕ)
  make_node node (err res) = err res
  make_node node (ok (part, ptr, rest)) =
      ok (record { part = part; part_ptr = ptr; node_ptr = node }, rest)

  -- `pparser_make_path_part`: `sizeof(PathPart)` is 8.
  unfoldable pub make_path_part : S → List ℕ → Option (Code (PathPart × List ℕ) × S)
  unfolding extract_path_part
  make_path_part s filepath = malloc s 8 >>= λ (node, s').
      if node == 0
      then some (err enomem, s')
      else extract_path_part s' filepath >>= λ (res, s''). some (make_node node res, s'')

  -- The loop of `pparser_parse_path`: any error ends it. The number of rounds is at most `fuel`.
  unfoldable pub parse_parts : ℕ → S → List ℕ → Option (List PathPart × S)
  parse_parts zero s filepath = none
  parse_parts (suc fuel) s filepath = make_path_part s filepath >>= λ (res, s'). elim res [
    | err _ ↦ some ([], s')
    | ok (part, rest) ↦ parse_parts fuel s' rest >>= λ (parts, s''). some (part ∷ parts, s'')
  ]

  -- `pparser_get_path`: `sizeof(NuttlePath)` is 8.
  unfoldable pub get_path : S → ℕ → List PathPart → Option (Code NuttlePath × S)
  get_path s drive parts = malloc s 8 >>= λ (ptr, s').
      if ptr == 0
      then some (err enomem, s')
      else some (ok (record { drive_no = drive; parts = parts; path_ptr = ptr }), s')

  -- `pparser_parse_path` behind the first part.
  pub parse_rest : ℕ → Code (PathPart × List ℕ) × S → Option (Code NuttlePath × S)
  unfolding parse_parts get_path
  parse_rest drive (err res, s) = some (err res, s)
  parse_rest drive (ok (part, rest), s) =
      parse_parts (length rest + 1) s rest >>= λ (parts, s'). get_path s' drive (part ∷ parts)

  -- `pparser_parse_path` behind the drive number.
  pub parse_drive : S → Code (ℕ × List ℕ) → Option (Code NuttlePath × S)
  unfolding parse_rest
  parse_drive s (err res) = some (err res, s)
  parse_drive s (ok (drive, [])) = get_path s drive []
  parse_drive s (ok (drive, ch ∷ rest)) = make_path_part s (ch ∷ rest) >>= parse_rest drive

  -- `pparser_parse_path`
  unfoldable pub parse_path : S → List ℕ → Option (Code NuttlePath × S)
  unfolding extract_drive_number parse_drive
  parse_path s filepath = parse_drive s (extract_drive_number filepath)

-- `pparser_free`: the blocks it frees, in order.
abbrev pub part_blocks : List PathPart → List ℕ
part_blocks [] = []
part_blocks (part ∷ parts) = part.part_ptr ∷ part.node_ptr ∷ part_blocks parts

unfoldable pub freed_blocks : NuttlePath → List ℕ
freed_blocks path = part_blocks path.parts ++ (path.path_ptr ∷ [])
