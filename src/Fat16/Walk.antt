-- ===== src/Fat16/Walk.antt =====
-- The walk to an item in src/kernel/fs/fat16.c: the directories on the disk, and `fat16_open` and
-- `fat16_close`. The allocator is a parameter (0 is no memory). Loops over a chain of clusters and over
-- a directory have `fuel` rounds; `none` is a fault, or a loop
-- that has not ended in them. What an array or a new block holds before is the same in each call.
pub mod Open
use asif_os.Prelude.{
  ℕ, zero, suc, ◌+◌, ◌-◌, ◌*◌, ◌/◌, ◌%◌, ◌^◌, Bool, true, false, Option, none, some, List, [], ◌∷◌,
  ◌++◌, ◌==◌, ltb, leb, if◌then◌else◌, ◌>>=◌, length, take, drop, get_or,
}
use asif_os.Kern.Status.{Status, all_ok, eio, enomem, einvarg, is_err}
use asif_os.Stream.{seek}
use asif_os.Fat16.{Fat, entry_size, count_items, is_directory, cluster_number}
use asif_os.Fat16.Cluster.{Reader, cluster_pos, read_internals}
use asif_os.Fat16.File.{overwrite}
use asif_os.Fat16.Find.{Search, found, missing, fault, running, find_item}

-- The entries that the array `dir` of a function has, 16 more than a sector.
abbrev pub dir_entries : ℕ
dir_entries = 32

-- The copies of `fat16_resolve_directories` from one sector, `n` entries before the end of `dir`.
unfoldable pub copy_items : ℕ → List ℕ → List ℕ
copy_items zero bytes = []
copy_items (suc n) bytes =
    let first = get_or bytes 0 0 in
    let rest = copy_items n (drop entry_size bytes) in
    if first == 0 then [] else if first == 0xe5 then rest else take entry_size bytes ++ rest

-- `NuttleFATItem`, with its block, the memory at `directory` and the block of that.
pub record FatItem : Type 0 where
  pub ptr : ℕ
  pub in_directory : Bool
  pub contents : List ℕ
  pub directory_ptr : ℕ

-- A pointer to an item: null, an error made into a pointer, or an item.
pub data ItemPointer : Type 0 where
  null_item : ItemPointer
  error_item : Status → ItemPointer
  item : FatItem → ItemPointer

module _ (disk_read_block : ℕ → Status × List ℕ) where
  -- The start of a directory's chain.
  abbrev pub directory_reader : Fat → ℕ → Reader
  directory_reader fat cluster = record {
    fat = record fat { data_stream = (seek fat.data_stream (cluster_pos fat cluster)).1 };
    cluster = cluster;
    count = 0;
  }

  -- The loop of `fat16_get_total_number_of_directory_entries`; `dir` is the array before it.
  unfoldable pub count_chain : ℕ → Reader → List ℕ → ℕ → Option (ℕ × Reader)
  count_chain zero reader dir total = none
  count_chain (suc fuel) reader dir total =
      read_internals disk_read_block reader >>= λ (go, reader', bytes, n).
      let dir' = overwrite bytes dir in
      let rest = count_chain fuel reader' dir' (count_items dir_entries dir' total) in
      if go then rest else some (total, reader')

  -- The loop of `fat16_resolve_directories`: what it copies.
  unfoldable pub copy_chain : ℕ → Reader → List ℕ → Option (List ℕ × Reader)
  copy_chain zero reader dir = none
  copy_chain (suc fuel) reader dir =
      read_internals disk_read_block reader >>= λ (go, reader', bytes, n).
      let dir' = overwrite bytes dir in
      let rest = copy_chain fuel reader' dir' in
      if go
      then (rest >>= λ (copied, last). some (copy_items dir_entries dir' ++ copied, last))
      else some ([], reader')

  module _ {S : Type 0} (malloc : S → ℕ → Option (ℕ × S)) (free : S → ℕ → Option S) where
    -- `fat16_resolve_directories`, with what its array `dir` and the new block hold before: the
    -- status, the memory of the directory and its block. A copy behind the block is a fault.
    unfoldable pub resolve_directories :
        ℕ
        → S
        → Fat
        → (cluster : ℕ) → (dir dir' block : List ℕ) → Option (Status × List ℕ × ℕ × Fat × S)
    unfolding count_chain copy_chain
    resolve_directories fuel s fat cluster dir dir' block =
        count_chain fuel (directory_reader fat cluster) dir 0 >>= λ (total, counted).
        malloc s (total * entry_size) >>= λ (ptr, s').
        if ptr == 0
        then some (enomem, [], 0, counted.fat, s')
        else (copy_chain fuel (directory_reader counted.fat cluster) dir' >>= λ (copied, last).
            if ltb (length block) (length copied)
            then none
            else some (all_ok, overwrite copied block, ptr, last.fat, s'))

    -- `fat16_directory_to_item` on an entry, with `fat16_resolve_subdir`, which it calls on a
    -- directory: an item that is freed on an error is returned all the same.
    unfoldable pub entry_to_item :
        ℕ → S → Fat → List ℕ → (dir dir' block : List ℕ) → Option (ItemPointer × Fat × S)
    unfolding resolve_directories
    entry_to_item fuel s fat entry dir dir' block =
        -- `sizeof(NuttleFATItem)`: five fields of four bytes.
        malloc s 20 >>= λ (ptr, s').
        if ptr == 0
        then some (error_item enomem, fat, s')
        else if is_directory entry
        then (resolve_directories fuel s' fat (cluster_number entry) dir dir' block
            >>= λ (res, contents, directory_ptr, fat', s'').
                (if is_err res then free s'' ptr else some s'') >>= λ last. some (
                  item (record {
                    ptr = ptr;
                    in_directory = true;
                    contents = contents;
                    directory_ptr = directory_ptr;
                  }),
                  fat',
                  last,
                ))
        else (malloc s' entry_size >>= λ (directory_ptr, s'').
            if directory_ptr == 0
            then some (error_item enomem, fat, s'')
            else some (
              item (record {
                ptr = ptr;
                in_directory = false;
                contents = take entry_size entry;
                directory_ptr = directory_ptr;
              }),
              fat,
              s'',
            ))

    -- What `fat16_find_item_in_directory` makes of its search.
    abbrev pub search_to_item :
        ℕ → S → Fat → Search → (dir dir' block : List ℕ) → Option (ItemPointer × Fat × S)
    search_to_item fuel s fat (found entry) dir dir' block =
        entry_to_item fuel s fat entry dir dir' block
    search_to_item fuel s fat missing dir dir' block = some (null_item, fat, s)
    search_to_item fuel s fat fault dir dir' block = none
    search_to_item fuel s fat running dir dir' block = none

    -- `fat16_free_item`
    unfoldable pub free_item : S → FatItem → Option S
    free_item s i =
        (if i.directory_ptr == 0 then some s else free s i.directory_ptr) >>= λ s'. free s' i.ptr

    -- The loop of `fat16_get_directory_item`. A null pointer and an error are followed like an item.
    unfoldable pub walk :
        ℕ
        → S
        → Fat
        → ItemPointer
        → List (List ℕ)
        → (dir dir' block : List ℕ) → Option (ItemPointer × Fat × S)
    unfolding entry_to_item free_item
    walk fuel s fat current [] dir dir' block = some (current, fat, s)
    walk fuel s fat null_item (part ∷ parts) dir dir' block = none
    walk fuel s fat (error_item res) (part ∷ parts) dir dir' block = none
    walk fuel s fat (item i) (part ∷ parts) dir dir' block =
        if i.in_directory
        then (search_to_item fuel s fat (find_item fuel i.contents part) dir dir' block
            >>= λ (next, fat', s').
                free_item s' i >>= λ s''. walk fuel s'' fat' next parts dir dir' block)
        else some (error_item eio, fat, s)

    -- `fat16_get_directory_item`: the walk from the root directory, whose miss is an error.
    abbrev pub walk_on :
        ℕ
        → ItemPointer × Fat × S
        → List (List ℕ)
        → (dir dir' block : List ℕ) → Option (ItemPointer × Fat × S)
    walk_on fuel (null_item, fat, s) parts dir dir' block = some (error_item eio, fat, s)
    walk_on fuel (error_item res, fat, s) parts dir dir' block =
        walk fuel s fat (error_item res) parts dir dir' block
    walk_on fuel (item i, fat, s) parts dir dir' block =
        walk fuel s fat (item i) parts dir dir' block

    unfoldable pub get_directory_item :
        ℕ
        → S
        → Fat
        → (part : List ℕ) → (parts : List (List ℕ)) → (dir dir' block : List ℕ)
        → Option (ItemPointer × Fat × S)
    unfolding walk
    get_directory_item fuel s fat part parts dir dir' block =
        search_to_item fuel s fat (find_item fuel fat.root part) dir dir' block >>= λ first.
        walk_on fuel first parts dir dir' block
