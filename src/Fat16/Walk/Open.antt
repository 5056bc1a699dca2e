-- ===== src/Fat16/Walk/Open.antt =====
-- `fat16_open` and `fat16_close` of src/kernel/fs/fat16.c.
use asif_os.Prelude.{
  ℕ, ◌≡◌, ◌≢◌, refl, ap, ◌∙◌, Bool, false, Option, none, some, List, [], ◌==◌, if◌then◌else◌, ◌>>=◌,
  >>=_assoc, ◌||◌, bit_and, pick_else, take, not,
}
use asif_os.Kern.Status.{Status, all_ok, enomem, erdonly, eopendir, Code, ok, err}
use asif_os.Fat16.{Fat, entry_size, is_directory}
use asif_os.Fat16.Find.{found, missing, find_item}
use asif_os.Fat16.Walk.{
  FatItem, ItemPointer, null_item, error_item, item, entry_to_item, free_item, get_directory_item,
}
use asif_os.Fat16.File.{FatFileDescriptor}

-- FILE_MODE_APPEND and FILE_MODE_WRITE
abbrev pub writes : ℕ → Bool
writes mode = not (bit_and mode 4 == 0) || not (bit_and mode 2 == 0)

-- `NuttleFATFileDescriptor` with its block and its item, whose memory is the entry.
pub record OpenFile : Type 0 where
  pub ptr : ℕ
  pub file_item : FatItem
  pub file : FatFileDescriptor

module _ (disk_read_block : ℕ → Status × List ℕ) {S : Type 0} (malloc : S → ℕ → Option (ℕ × S))
    (free : S → ℕ → Option S) where
  -- The end of `fat16_open` after an error: an item pointer that is an error is freed like an item.
  abbrev pub give_up : S → Fat → (ptr : ℕ) → ItemPointer → Status → Option (Code OpenFile × Fat × S)
  give_up s fat ptr null_item res =
      if ptr == 0 then some (err res, fat, s) else (free s ptr >>= λ s'. some (err res, fat, s'))
  give_up s fat ptr (error_item _) res = if ptr == 0 then some (err res, fat, s) else none
  give_up s fat ptr (item i) res =
      if ptr == 0
      then some (err res, fat, s)
      else (free_item disk_read_block malloc free s i >>= λ s'.
          free s' ptr >>= λ s''. some (err res, fat, s''))

  -- `fat16_open` behind its call of `fat16_get_directory_item`.
  abbrev pub open_item : (ptr : ℕ) → ItemPointer × Fat × S → Option (Code OpenFile × Fat × S)
  open_item ptr (null_item, fat, s) = none
  open_item ptr (error_item res, fat, s) = give_up s fat ptr (error_item res) res
  open_item ptr (item i, fat, s) =
      if i.in_directory
      then give_up s fat ptr (item i) eopendir
      else some (
        ok (record { ptr = ptr; file_item = i; file = record { entry = i.contents; pos = 0 } }),
        fat,
        s,
      )

  -- `fat16_open`; `stale` is what the new descriptor holds for its item before.
  unfoldable pub open_file :
      ℕ
      → S
      → Fat
      → (part : List ℕ) → (parts : List (List ℕ)) → (mode : ℕ) → (stale : ItemPointer)
      → (dir dir' block : List ℕ) → Option (Code OpenFile × Fat × S)
  open_file fuel s fat part parts mode stale dir dir' block =
      -- `sizeof(NuttleFATFileDescriptor)` is 8.
      malloc s 8 >>= λ (ptr, s').
      if writes mode
      then give_up s' fat ptr stale erdonly
      else if ptr == 0
      then some (err enomem, fat, s')
      else (get_directory_item disk_read_block malloc free fuel s' fat part parts dir dir' block
          >>= open_item ptr)

  -- `fat16_close`
  unfoldable pub close : S → OpenFile → Option (Status × S)
  close s desc = free_item disk_read_block malloc free s desc.file_item >>= λ s'.
      free s' desc.ptr >>= λ s''. some (all_ok, s'')

  -- With memory for the descriptor, a name that the root directory does not have is no error of an open
  -- for reading: it faults, over the error that it takes for an item.
  pub open_file-missing :
      (fuel : ℕ) (s s' : S) (fat : Fat) (part : List ℕ) (parts : List (List ℕ)) (mode ptr : ℕ)
      (stale : ItemPointer) (dir dir' block : List ℕ)
      → malloc s 8 ≡ some (ptr, s')
      → ptr ≢ 0
      → writes mode ≡ false
      → find_item fuel fat.root part ≡ missing
      → open_file fuel s fat part parts mode stale dir dir' block ≡ none
  unfolding open_file get_directory_item
  open_file-missing fuel s s' fat part parts mode ptr stale dir dir' block given some_block reading
        absent =
      rw (given, reading, absent) (pick_else some_block _ _ ∙ pick_else some_block _ _)

  -- The item of a file.
  abbrev file_of : (item_ptr entry_ptr : ℕ) → List ℕ → FatItem
  file_of item_ptr entry_ptr entry = record {
    ptr = item_ptr;
    in_directory = false;
    contents = take entry_size entry;
    directory_ptr = entry_ptr;
  }

  entry_to_item-file :
      (fuel : ℕ) (s s' s'' : S) (fat : Fat) (entry : List ℕ) (item_ptr entry_ptr : ℕ)
      (dir dir' block : List ℕ)
      → malloc s 20 ≡ some (item_ptr, s')
      → item_ptr ≢ 0
      → malloc s' entry_size ≡ some (entry_ptr, s'')
      → entry_ptr ≢ 0
      → is_directory entry ≡ false
      → entry_to_item disk_read_block malloc free fuel s fat entry dir dir' block
        ≡ some (item (file_of item_ptr entry_ptr entry), fat, s'')
  unfolding entry_to_item
  entry_to_item-file fuel s s' s'' fat entry item_ptr entry_ptr dir dir' block item_given some_item
        entry_given some_entry is_file =
      rw (item_given, is_file, entry_given) (pick_else some_item _ _ ∙ pick_else some_entry _ _)

  -- With memory for three blocks, a file of the root directory is opened for reading at its start, with
  -- its entry, and a close frees the three blocks that the open took, the last one first.
  pub close-open_file :
      (fuel : ℕ) (s s₁ s₂ s₃ : S) (fat : Fat) (part entry : List ℕ)
      (mode ptr item_ptr entry_ptr : ℕ) (stale : ItemPointer) (dir dir' block : List ℕ)
      → malloc s 8 ≡ some (ptr, s₁)
      → ptr ≢ 0
      → malloc s₁ 20 ≡ some (item_ptr, s₂)
      → item_ptr ≢ 0
      → malloc s₂ entry_size ≡ some (entry_ptr, s₃)
      → entry_ptr ≢ 0
      → writes mode ≡ false
      → find_item fuel fat.root part ≡ found entry
      → is_directory entry ≡ false
      → (desc : OpenFile) × (open_file fuel s fat part [] mode stale dir dir' block
          ≡ some (ok desc, fat, s₃))
        × (desc.file ≡ record { entry = take entry_size entry; pos = 0 })
        × ((t : S)
            → close t desc ≡ (
                free t entry_ptr >>= λ t₁.
                free t₁ item_ptr >>= λ t₂. free t₂ ptr >>= λ t₃. some (all_ok, t₃)))
  unfolding open_file get_directory_item close
  close-open_file fuel s s₁ s₂ s₃ fat part entry mode ptr item_ptr entry_ptr stale dir dir' block
        given some_block item_given some_item entry_given some_entry reading present is_file =
      let made =
        entry_to_item-file fuel s₁ s₂ s₃ fat entry item_ptr entry_ptr dir dir' block item_given
          some_item entry_given some_entry is_file in
      (
        record {
          ptr = ptr;
          file_item = file_of item_ptr entry_ptr entry;
          file = record { entry = take entry_size entry; pos = 0 };
        },
        rw (given, reading, present) (pick_else some_block _ _ ∙ rw made refl),
        refl,
        λ t.
            ap
              (λ m.
                m >>= (λ t₁. free t₁ item_ptr) >>= λ t₂. free t₂ ptr >>= λ t₃. some (all_ok, t₃))
              (pick_else some_entry (some t) (free t entry_ptr))
            ∙ >>=_assoc (free t entry_ptr) (λ t₁. free t₁ item_ptr)
                (λ t₂. free t₂ ptr >>= λ t₃. some (all_ok, t₃)),
      )
