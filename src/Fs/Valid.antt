-- ===== src/Fs/Valid.antt =====
-- The descriptor table of src/kernel/fs/file.c: a new descriptor takes a free slot, and no other
-- number changes.
use asif_os.Prelude.{
  ℕ, zero, suc, ◌+◌, ◌-◌, ◌≡◌, ◌≢◌, refl, ap, ◌∙◌, arith, Option, none, some, List, [], ◌∷◌, store,
  load, set, pick_else,
}
use asif_os.Prelude.Int.{pos}
use asif_os.Kern.Status.{Code, ok}
use asif_os.Fs.{FileDescriptor}
use asif_os.Fs.Table.{free_slot, get_fd, fill_slot, new_descriptor, free_descriptor}

module _ {ℓ} {A : Type ℓ} where
  load-set_self :
      (xs : List A) (i : ℕ) (a v : A) → load xs i ≡ some a → load (set xs i v) i ≡ some v
  unfolding load
  load-set_self [] i a v h = cc
  load-set_self (x ∷ xs) zero a v h = refl
  load-set_self (x ∷ xs) (suc i) a v h = load-set_self xs i a v h

  load-set_ne : (xs : List A) (i j : ℕ) (v : A) → i ≢ j → load (set xs i v) j ≡ load xs j
  unfolding load
  load-set_ne [] i j v ne = refl
  load-set_ne (x ∷ xs) zero zero v ne = absurd (ne refl)
  load-set_ne (x ∷ xs) zero (suc j) v ne = refl
  load-set_ne (x ∷ xs) (suc i) zero v ne = refl
  load-set_ne (x ∷ xs) (suc i) (suc j) v ne = load-set_ne xs i j v (λ e. ne (ap suc e))

  store-load :
      (xs : List A) (i : ℕ) (a v : A) → load xs i ≡ some a → store xs i v ≡ some (set xs i v)
  unfolding load store
  store-load [] i a v h = cc
  store-load (x ∷ xs) zero a v h = refl
  store-load (x ∷ xs) (suc i) a v h = rw (store-load xs i a v h) refl

  set-set : (xs : List A) (i : ℕ) (a v : A) → load xs i ≡ some a → set (set xs i v) i a ≡ xs
  unfolding load
  set-set [] i a v h = refl
  set-set (x ∷ xs) zero a v h = cc
  set-set (x ∷ xs) (suc i) a v h = ap (◌∷◌ x) (set-set xs i a v h)

  -- The search finds a free slot when there is one.
  free_slot_lem :
      (slots : List (Option A)) (i k : ℕ)
      → load slots k ≡ some none
      → (slot : ℕ) × (free_slot slots i ≡ some (i + slot)) × (load slots slot ≡ some none)
  unfolding free_slot load
  free_slot_lem [] i k h = cc
  free_slot_lem (none ∷ slots) i k h = (0, ap some (omega arith), refl)
  free_slot_lem (some a ∷ slots) i zero h = cc
  free_slot_lem (some a ∷ slots) i (suc k) h =
      let (slot, found, free) = free_slot_lem slots (i + 1) k h in
      (suc slot, found ∙ ap some (omega arith), free)

module _ {Data : Type 0} where
  get_fd-load :
      (table : List (Option (FileDescriptor Data))) (slot : ℕ)
      → get_fd table (pos (slot + 1)) ≡ load table slot
  unfolding get_fd
  get_fd-load table slot = let e : slot + 1 ≡ suc slot = omega arith in rw e refl

  get_fd-set_ne :
      (table : List (Option (FileDescriptor Data))) (slot : ℕ) (v : Option (FileDescriptor Data))
      (fd : ℕ)
      → fd ≢ slot + 1
      → get_fd (set table slot v) (pos fd) ≡ get_fd table (pos fd)
  unfolding get_fd
  get_fd-set_ne table slot v zero ne = refl
  get_fd-set_ne table slot v (suc fd) ne = load-set_ne table slot fd v (λ e. ne (omega arith))

module _ {S Data : Type 0} (malloc : S → ℕ → Option (ℕ × S)) (free : S → ℕ → Option S) where
  -- What a new descriptor is.
  pub record Opened (s' : S) (table : List (Option (FileDescriptor Data))) (file_data : Data)
      (ptr : ℕ)
      (run : Option (Code (FileDescriptor Data) × List (Option (FileDescriptor Data)) × S))
      : Type 0 where
    pub desc : FileDescriptor Data
    pub table' : List (Option (FileDescriptor Data))
    pub answers : run ≡ some (ok desc, table', s')
    pub holds : (desc.file_data ≡ file_data) × (desc.ptr ≡ ptr)
    pub was_free : get_fd table (pos desc.index) ≡ some none
    pub found : get_fd table' (pos desc.index) ≡ some (some desc)
    pub others : (fd : ℕ) → fd ≢ desc.index → get_fd table' (pos fd) ≡ get_fd table (pos fd)
    pub freed :
        (t t' : S)
        → free t ptr ≡ some t'
        → free_descriptor malloc free t table' desc ≡ some (table, t')

  Opened-at :
      (s s' : S) (table : List (Option (FileDescriptor Data))) (file_data : Data) (slot ptr : ℕ)
      → free_slot table 0 ≡ some slot
      → load table slot ≡ some none
      → malloc s 12 ≡ some (ptr, s')
      → ptr ≢ 0
      → Opened s' table file_data ptr (new_descriptor malloc free s table file_data)
  unfolding new_descriptor free_descriptor
  Opened-at s s' table file_data slot ptr search is_free given some_block =
      let desc : FileDescriptor Data = record {
        ptr = ptr;
        index = slot + 1;
        file_data = file_data;
      } in
      let table' : List (Option (FileDescriptor Data)) = set table slot (some desc) in
      let back : slot + 1 - 1 ≡ slot = omega arith in
      record {
        desc = desc;
        table' = table';
        answers =
            ap (fill_slot malloc free s table file_data) search
            ∙ rw given (
                pick_else some_block _ _
                ∙ rw (store-load table slot none (some desc) is_free) refl);
        holds = (refl, refl);
        was_free = get_fd-load table slot ∙ is_free;
        found = get_fd-load table' slot ∙ load-set_self table slot none (some desc) is_free;
        others = get_fd-set_ne table slot (some desc);
        freed = λ t t' gone.
            rw
              (
                back,
                store-load table' slot (some desc) none
                    (load-set_self table slot none (some desc) is_free),
                set-set table slot none (some desc) is_free,
                gone,
              )
              refl;
      }

  -- A table with a free slot, and memory, give a new descriptor with the data of the open file: its
  -- number was free and names it from then on, every other number names what it named, and freeing
  -- the descriptor gives the old table back.
  pub new_descriptor-Opened :
      (s s' : S) (table : List (Option (FileDescriptor Data))) (file_data : Data) (k ptr : ℕ)
      → load table k ≡ some none
      → malloc s 12 ≡ some (ptr, s')
      → ptr ≢ 0
      → Opened s' table file_data ptr (new_descriptor malloc free s table file_data)
  new_descriptor-Opened s s' table file_data k ptr some_slot given some_block =
      let (slot, search, is_free) = free_slot_lem table 0 k some_slot in
      Opened-at s s' table file_data slot ptr (search ∙ ap some (omega arith)) is_free given
        some_block
