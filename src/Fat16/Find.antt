-- ===== src/Fat16/Find.antt =====
-- The search of a directory in src/kernel/fs/fat16.c: the loop of `fat16_find_item_in_directory`.
use asif_os.Prelude.{ℕ, zero, suc, Option, none, some, List, [], ◌∷◌, ◌==◌, if◌then◌else◌, drop}
use asif_os.Kern.Str.{strcmpk, is_zero}
use asif_os.Fat16.{entry_size}
use asif_os.Fat16.Name.{plain_item_name}

-- How the search ends: with the entry, at the end of the directory, with a read behind the memory;
-- or it has not ended after the rounds it was given.
pub data Search : Type 0 where
  found : List ℕ → Search
  missing : Search
  fault : Search
  running : Search

-- What the name of an occupied entry decides: the entry, or the search from the next one on.
abbrev pub compare_name : List ℕ → List ℕ → Option (List ℕ) → Search → Search
compare_name items part none next = fault
compare_name items part (some name) next = if is_zero (strcmpk name part) then found items else next

-- The loop, `fuel` rounds of it, from the entry at a memory: a free entry (0xe5) is passed over by
-- `continue`, without a step of the index.
unfoldable pub find_item : ℕ → List ℕ → List ℕ → Search
find_item zero items part = running
find_item (suc fuel) [] part = fault
find_item (suc fuel) (first ∷ rest) part =
    let again = find_item fuel (first ∷ rest) part in
    let next = find_item fuel (drop entry_size (first ∷ rest)) part in
    let occupied = compare_name (first ∷ rest) part (plain_item_name (first ∷ rest)) next in
    if first == 0 then missing else if first == 0xe5 then again else occupied
