-- ===== src/Fs/Table.antt =====
-- The descriptor table of src/kernel/fs/file.c. The allocator is a parameter; 0 is no memory.
use asif_os.Prelude.{
  ℕ, zero, suc, ◌+◌, ◌-◌, Bool, false, ◌&&◌, Option, none, some, List, [], ◌∷◌, ◌==◌, leb, ltb,
  if◌then◌else◌, ◌>>=◌, store, load, bit_and, replicate,
}
use asif_os.Prelude.Int.{ℤ, pos, negsuc}
use asif_os.Kern.Status.{enomem, Code, ok, err}
use asif_os.Fs.{FileDescriptor, max_file_descriptors}

-- `file_get_free_slot`: the loop from slot `i` on.
unfoldable pub free_slot {ℓ} : {A : Type ℓ} → List (Option A) → ℕ → Option ℕ
free_slot [] i = none
free_slot (some a ∷ slots) i = free_slot slots (i + 1)
free_slot (none ∷ slots) i = some i

-- `file_io_init`
abbrev pub file_io_init : {Data : Type 0} → List (Option (FileDescriptor Data))
file_io_init = replicate max_file_descriptors none

-- `file_get_fd`: its guard `fd < 1 && fd > NUTTLE_MAX_FILE_DESCRIPTORS` holds of no number, so an
-- index outside of the table is read.
unfoldable pub get_fd :
    {Data : Type 0}
    → List (Option (FileDescriptor Data))
    → ℤ
    → Option (Option (FileDescriptor Data))
get_fd table (pos zero) = none
get_fd table (pos (suc fd)) = load table fd
get_fd table (negsuc fd) = none

-- `file_is_valid`
abbrev pub is_valid : ℤ → Bool
is_valid (pos fd) = ltb 0 fd && leb fd max_file_descriptors
is_valid (negsuc fd) = false

-- `file_is_valid_mode`: FILE_MODE_INVALID is 8.
abbrev pub is_valid_mode : ℕ → Bool
is_valid_mode mode = bit_and mode 8 == 0 && leb 1 mode && ltb mode 6

module _ {S Data : Type 0} (malloc : S → ℕ → Option (ℕ × S)) (free : S → ℕ → Option S) where
  -- `file_new_descriptor` behind its search for a slot, with the data that `file_open` stores in the
  -- new descriptor.
  abbrev pub fill_slot :
      S
      → List (Option (FileDescriptor Data))
      → Data
      → Option ℕ
      → Option (Code (FileDescriptor Data) × List (Option (FileDescriptor Data)) × S)
  fill_slot s table file_data none = some (err enomem, table, s)
  fill_slot s table file_data (some slot) =
      -- `sizeof(NuttleFileDescriptor)` is 12.
      malloc s 12 >>= λ (ptr, s').
      let desc : FileDescriptor Data = record {
        ptr = ptr;
        index = slot + 1;
        file_data = file_data;
      } in
      if ptr == 0
      then some (err enomem, table, s')
      else (store table slot (some desc) >>= λ table'. some (ok desc, table', s'))

  -- `file_new_descriptor`
  unfoldable pub new_descriptor :
      S
      → List (Option (FileDescriptor Data))
      → Data
      → Option (Code (FileDescriptor Data) × List (Option (FileDescriptor Data)) × S)
  unfolding free_slot
  new_descriptor s table file_data = fill_slot s table file_data (free_slot table 0)

  -- `file_free_descriptor`
  unfoldable pub free_descriptor :
      S
      → List (Option (FileDescriptor Data))
      → FileDescriptor Data
      → Option (List (Option (FileDescriptor Data)) × S)
  free_descriptor s table desc =
      store table (desc.index - 1) none >>= λ table'. free s desc.ptr >>= λ s'. some (table', s')
