-- ===== src/Tests/FatRuns.antt =====
-- Runs of src/kernel/fs/fat16.c over a small volume: a file of 600 bytes in the clusters 2 and 3.
use asif_os.Prelude.{
  ℕ, zero, suc, ◌+◌, ◌*◌, ◌%◌, ◌≤◌, ◌≡◌, ◌↔◌, refl, arith, false, Option, none, some, List, [], ◌∷◌,
  ◌++◌, replicate, ◌==◌, if◌then◌else◌,
}
use asif_os.Prelude.Int.{negsuc}
use asif_os.Kern.Status.{Status, all_ok, ok}
use asif_os.Kern.Str.{strcmpk, char_diff}
use asif_os.Stream.Read.{sector_bytes}
use asif_os.Fat16.{Fat}
use asif_os.Fat16.Name.{until_blank, plain_item_name, make_entry, plain_item_name_lem}
use asif_os.Fat16.Find.{found, find_item, missing, running}
use asif_os.Fat16.Search.{IsEntry, end_of, entry_of, FirstNamed, find_item_lem, find_item-running}
use asif_os.Fat16.File.{FatFileDescriptor, read}
use asif_os.Fat16.Follow.{Volume}
use asif_os.Fat16.Whole.{read-chain_bytes}
use asif_os.Fat16.Chain.{Linked}
use asif_os.Fat16.Position.{seek, before_start, seek-outcome}
use asif_os.Fat16.Walk.{null_item}
use asif_os.Fat16.Walk.Open.{OpenFile, open_file, close, open_file-missing, close-open_file}

-- The entry of cluster 2 in the table is 3.
abbrev disk : ℕ → ℕ
disk at = if at == 516 then 3 else if at == 517 then 0 else at % 251

abbrev read_block : ℕ → Status × List ℕ
read_block sector = (all_ok, sector_bytes disk sector)

-- The file A.
abbrev file_entry : List ℕ
file_entry = 65 ∷ (replicate 10 32 ++ (32 ∷ (replicate 14 0 ++ (2 ∷ 0 ∷ 88 ∷ 2 ∷ 0 ∷ 0 ∷ []))))

abbrev volume : (root : List ℕ) → Fat
volume root = record {
  header = record {
    bytes_per_sector = 512;
    sectors_per_cluster = 1;
    reserved_sectors = 1;
    fat_tables = 1;
    directory_entries = 16;
    sectors_per_fat_table = 1;
    signature = 0x29;
  };
  root = root;
  root_total = 1;
  end_sector_pos = 4;
  table_stream = record { pos = 0 };
  data_stream = record { pos = 0 };
}

abbrev file_at : ℕ → FatFileDescriptor
file_at at = record { entry = file_entry; pos = at }

volume-Volume : Volume (volume []).header 4
volume-Volume = record {
  bytes_at = refl;
  some_sector = omega arith;
  cluster_in = omega arith;
  reserved_in = omega arith;
  end_in = omega arith;
}

two_clusters : Linked disk read_block (λ sector. refl) (volume []).header 4 2 (3 ∷ [])
two_clusters = (
  record { from_two = omega arith; in_table = omega arith; on_disk = omega arith },
  refl,
  record { from_two = omega arith; in_table = omega arith; on_disk = omega arith },
)

read-chain_bytes_example :
    (fat' : Fat) × (read read_block (volume []) (file_at 0) [] 1 3
      ≡ some (3, 40 ∷ 41 ∷ 42 ∷ [], file_at 3, fat'))
read-chain_bytes_example =
    read-chain_bytes disk read_block (λ sector. refl) (volume []) (file_at 0) (3 ∷ []) [] 1 3
      volume-Volume two_clusters refl (omega arith) (omega arith) (omega arith) (omega arith)

named_A : (rest : List ℕ) → plain_item_name (file_entry ++ rest) ≡ some (65 ∷ [])
unfolding plain_item_name until_blank
named_A rest = refl

file_entry-IsEntry : IsEntry file_entry (65 ∷ [])
file_entry-IsEntry = record {
  first = 65;
  others = replicate 10 32 ++ (32 ∷ (replicate 14 0 ++ (2 ∷ 0 ∷ 88 ∷ 2 ∷ 0 ∷ 0 ∷ [])));
  bytes = refl;
  size = refl;
  in_use = λ e. omega arith;
  not_free = λ e. omega arith;
  named = named_A;
  chars = ((omega arith, omega arith), tt);
}

abbrev root : List ℕ
root = file_entry ++ (0 ∷ [])

find_item_lem_example :
    FirstNamed (65 ∷ []) root ((file_entry, 65 ∷ []) ∷ []) (find_item 2 root (65 ∷ []))
find_item_lem_example =
    find_item_lem root (65 ∷ []) ((file_entry, 65 ∷ []) ∷ []) 2
      (entry_of file_entry-IsEntry (end_of []) refl) ((omega arith, omega arith), tt) (omega arith)

find_item-running_example : find_item 100 (0xe5 ∷ []) (65 ∷ []) ≡ running
find_item-running_example = find_item-running 100 [] (65 ∷ [])

plain_item_name_lem_example :
    plain_item_name (make_entry (65 ∷ []) (84 ∷ []) 32 []) ≡ some (65 ∷ 0x2e ∷ 84 ∷ [])
plain_item_name_lem_example =
    plain_item_name_lem (65 ∷ []) (84 ∷ []) 32 [] ((λ e. omega arith, λ e. omega arith), tt)
      (omega arith) ((λ e. omega arith, λ e. omega arith), tt) (omega arith)
      (λ e ne. absurd (omega arith))

seek-outcome_example :
    (seek (file_at 3) (negsuc 9) 2 ≡ (all_ok, file_at 4294967289))
    × (((seek (file_at 3) (negsuc 9) 2).1.pos ≤ 600)
        ↔ (before_start (file_at 3) (negsuc 9) 2 ≡ false))
seek-outcome_example =
    seek-outcome (file_at 3) (negsuc 9) 2 (omega arith) (omega arith) (omega arith)

-- An allocator with `s` blocks.
abbrev blocks : ℕ → ℕ → Option (ℕ × ℕ)
blocks zero n = some (0, 0)
blocks (suc s) n = some (suc s * 4096, s)

abbrev give_back : ℕ → ℕ → Option ℕ
give_back s ptr = some (s + 1)

root_has_A : find_item 2 root (65 ∷ []) ≡ found root
unfolding find_item plain_item_name until_blank strcmpk char_diff
root_has_A = refl

close-open_file_example :
    (desc : OpenFile) × (open_file read_block blocks give_back 2 9
        (volume root)
        (65 ∷ [])
        []
        1
        null_item
        []
        []
        []
      ≡ some (ok desc, volume root, 6))
    × (desc.file ≡ file_at 0)
    × ((t : ℕ) → close read_block blocks give_back t desc ≡ some (all_ok, t + 1 + 1 + 1))
close-open_file_example =
    close-open_file read_block blocks give_back 2 9 8 7 6 (volume root) (65 ∷ []) root 1 36864 32768
      28672 null_item [] [] [] refl (λ e. omega arith) refl (λ e. omega arith) refl
      (λ e. omega arith) refl root_has_A refl

root_has_no_B : find_item 2 root (66 ∷ []) ≡ missing
unfolding find_item plain_item_name until_blank strcmpk char_diff
root_has_no_B = refl

open_file-missing_example :
    open_file read_block blocks give_back 2 9 (volume root) (66 ∷ []) [] 1 null_item [] [] [] ≡ none
open_file-missing_example =
    open_file-missing read_block blocks give_back 2 9 8 (volume root) (66 ∷ []) [] 1 36864 null_item
      [] [] [] refl (λ e. omega arith) refl root_has_no_B
