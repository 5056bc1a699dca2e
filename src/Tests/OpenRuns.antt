-- ===== src/Tests/OpenRuns.antt =====
-- A run of src/kernel/fs/file.c over a filesystem whose every file is the number 5.
use asif_os.Prelude.{
  ℕ, zero, suc, ◌+◌, ◌*◌, ◌≡◌, ◌≢◌, refl, arith, Option, none, some, List, [], ◌∷◌, load,
}
use asif_os.Prelude.Int.{pos}
use asif_os.Kern.Status.{all_ok, ok}
use asif_os.Pparser.{
  NuttlePath, PathPart, parse_path, extract_drive_number, is_valid_path, make_path_part,
  extract_path_part, split_part, parse_parts, get_path, freed_blocks,
}
use asif_os.Fs.{NuttleFs, FileDescriptor}
use asif_os.Fs.Table.{get_fd}
use asif_os.Fs.Calls.{Files, free_all, file_open, file_close}
use asif_os.Fs.Open.{file_close-file_open}

abbrev blocks : ℕ → ℕ → Option (ℕ × ℕ)
blocks zero n = some (0, 0)
blocks (suc s) n = some (suc s * 4096, s)

abbrev give_back : ℕ → ℕ → Option ℕ
give_back s ptr = some (s + 1)

abbrev fives : NuttleFs ℕ ℕ
fives = record {
  open_file = λ s parts mode. some (ok 5, s);
  read_file = λ s file size nmemb. some (ok 0, [], file, s);
  seek_file = λ file offset whence. (all_ok, file);
  stat_file = λ file ptr. (all_ok, none);
  close_file = λ s file. some (all_ok, s);
  tell_file = λ file. pos 0;
}

-- 0:/a
abbrev pub name : List ℕ
name = 48 ∷ 58 ∷ 47 ∷ 97 ∷ []

abbrev part : PathPart
part = record { part = 97 ∷ []; part_ptr = 36864; node_ptr = 40960 }

abbrev path : NuttlePath
path = record { drive_no = 0; parts = part ∷ []; path_ptr = 28672 }

name_parses : parse_path blocks 10 name ≡ some (ok path, 6)
unfolding parse_path make_path_part extract_path_part split_part parse_parts get_path
    extract_drive_number is_valid_path
name_parses = refl

abbrev files : Files ℕ ℕ
files = record { heap = 10; table = none ∷ none ∷ [] }

path_freed : free_all give_back 5 (freed_blocks path) ≡ some 8
unfolding freed_blocks
path_freed = refl

second_free : load files.table 1 ≡ some none
unfolding load
second_free = refl

file_close-file_open_example :
    (desc : FileDescriptor ℕ) × (opened : Files ℕ ℕ) × (file_open blocks give_back
        (some fives)
        files
        name
        1
      ≡ some (ok desc.index, opened))
    × (desc.file_data ≡ 5)
    × (get_fd files.table (pos desc.index) ≡ some none)
    × (get_fd opened.table (pos desc.index) ≡ some (some desc))
    × ((fd : ℕ) → fd ≢ desc.index → get_fd opened.table (pos fd) ≡ get_fd files.table (pos fd))
    × (file_close blocks give_back fives opened (pos desc.index)
        ≡ some (all_ok, record { heap = 9; table = files.table }))
file_close-file_open_example =
    file_close-file_open blocks give_back fives files name 1 5 path part [] 6 6 5 8 8 9 1 24576
      name_parses refl refl refl second_free refl (λ e. omega arith) path_freed refl refl
