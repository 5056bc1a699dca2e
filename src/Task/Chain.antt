-- ===== src/Task/Chain.antt =====
-- Chains of tasks: each task points to the one before it and to the one after it.
use asif_os.Prelude.{ℕ, ◌≡◌, ◌≢◌, sym, ap, ◌∙◌, arith, List, [], ◌∷◌, ◌++◌, All}
use asif_os.Task.{Task, Nodes, write_task, set_next, set_prev}

abbrev pub first_or : List ℕ → ℕ → ℕ
first_or [] q = q
first_or (x ∷ xs) q = x

abbrev pub last_or : ℕ → List ℕ → ℕ
last_or p [] = p
last_or p (x ∷ xs) = last_or x xs

-- Between the task `p` in front and the task `q` behind.
abbrev pub Chain : Nodes → ℕ → List ℕ → ℕ → Type 0
Chain node p [] q = Unit {0}
Chain node p (x ∷ xs) q =
    (x ≢ 0) × ((node x).prev ≡ p) × ((node x).next ≡ first_or xs q) × Chain node x xs q

-- No task twice.
abbrev pub Apart : List ℕ → Type 0
Apart [] = Unit {0}
Apart (x ∷ xs) = All (λ y. y ≢ x) xs × Apart xs

pub write_same : (node : Nodes) (task : ℕ) (t : Task) → write_task node task t task ≡ t
unfolding write_task
write_same node task t = ground arith

pub write_other :
    (node : Nodes) (task : ℕ) (t : Task) (at : ℕ) → at ≢ task → write_task node task t at ≡ node at
unfolding write_task
write_other node task t at ne = ground (arith, ne)

-- A chain stays where its tasks stay.
pub Chain-same :
    (node node' : Nodes) (p : ℕ) (xs : List ℕ) (q : ℕ)
    → All (λ x. node' x ≡ node x) xs
    → Chain node p xs q
    → Chain node' p xs q
Chain-same node node' p [] q same c = tt
Chain-same node node' p (x ∷ xs) q (here, same) (some_task, back, on, c) = (
  some_task,
  ap (λ t. t.prev) here ∙ back,
  ap (λ t. t.next) here ∙ on,
  Chain-same node node' x xs q same c,
)

pub All-write :
    (node : Nodes) (task : ℕ) (t : Task) (xs : List ℕ)
    → All (λ x. x ≢ task) xs
    → All (λ x. write_task node task t x ≡ node x) xs
All-write node task t [] out = tt
All-write node task t (x ∷ xs) (ne, out) =
    (write_other node task t x ne, All-write node task t xs out)

-- A chain stays when a task that is not in it is written.
pub Chain-write :
    (node : Nodes) (task : ℕ) (t : Task) (p : ℕ) (xs : List ℕ) (q : ℕ)
    → All (λ x. x ≢ task) xs
    → Chain node p xs q
    → Chain (write_task node task t) p xs q
Chain-write node task t p xs q out =
    Chain-same node (write_task node task t) p xs q (All-write node task t xs out)

pub Chain-append :
    (node : Nodes) (p : ℕ) (xs ys : List ℕ) (q : ℕ)
    → Chain node p xs (first_or ys q)
    → Chain node (last_or p xs) ys q
    → Chain node p (xs ++ ys) q
Chain-append node p [] ys q front back = back
Chain-append node p (x ∷ []) ys q (some_task, prev, next, _) back = (some_task, prev, next, back)
Chain-append node p (x ∷ y ∷ xs) ys q (some_task, prev, next, front) back =
    (some_task, prev, next, Chain-append node x (y ∷ xs) ys q front back)

pub Chain-split :
    (node : Nodes) (p : ℕ) (xs ys : List ℕ) (q : ℕ)
    → Chain node p (xs ++ ys) q
    → Chain node p xs (first_or ys q) × Chain node (last_or p xs) ys q
Chain-split node p [] ys q c = (tt, c)
Chain-split node p (x ∷ []) ys q (some_task, prev, next, c) = ((some_task, prev, next, tt), c)
Chain-split node p (x ∷ y ∷ xs) ys q (some_task, prev, next, c) =
    let (front, back) = Chain-split node x (y ∷ xs) ys q c in ((some_task, prev, next, front), back)

-- Writing `next` in the last task changes what is behind the chain.
pub Chain-set_next :
    (node : Nodes) (p x : ℕ) (xs : List ℕ) (q q' : ℕ)
    → Apart (x ∷ xs)
    → Chain node p (x ∷ xs) q
    → Chain (set_next node (last_or x xs) q') p (x ∷ xs) q'
Chain-set_next node p x [] q q' apart (some_task, prev, next, _) =
    let now = write_same node x (record (node x) { next = q' }) in
    (some_task, ap (λ t. t.prev) now ∙ prev, ap (λ t. t.next) now, tt)
Chain-set_next node p x (y ∷ xs) q q' (out, apart) (some_task, prev, next, c) =
    let last = last_or y xs in
    let kept = write_other node last (record (node last) { next = q' }) x (last_ne x y xs out) in
    (
      some_task,
      ap (λ t. t.prev) kept ∙ prev,
      ap (λ t. t.next) kept ∙ next,
      Chain-set_next node x y xs q q' apart c,
    )
  where
    last_ne : (x y : ℕ) (xs : List ℕ) → All (λ z. z ≢ x) (y ∷ xs) → x ≢ last_or y xs
    last_ne x y [] (ne, _) = λ e. ne (sym e)
    last_ne x y (z ∷ xs) (_, out) = last_ne x z xs out

-- Writing `prev` in the first task changes what is in front of the chain.
pub Chain-set_prev :
    (node : Nodes) (p p' x : ℕ) (xs : List ℕ) (q : ℕ)
    → Apart (x ∷ xs)
    → Chain node p (x ∷ xs) q
    → Chain (set_prev node x p') p' (x ∷ xs) q
Chain-set_prev node p p' x xs q (out, apart) (some_task, prev, next, c) =
    let now = write_same node x (record (node x) { prev = p' }) in
    (
      some_task,
      ap (λ t. t.prev) now,
      ap (λ t. t.next) now ∙ next,
      Chain-write node x (record (node x) { prev = p' }) x xs q out c,
    )
