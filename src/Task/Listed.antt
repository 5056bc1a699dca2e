-- ===== src/Task/Listed.antt =====
-- The list that `head` and `tail` of src/kernel/task/task.c stand for, and insertion behind it.
use asif_os.Prelude.{
  ℕ, ◌≡◌, ◌≢◌, refl, sym, ap, ◌∙◌, arith, List, [], ◌∷◌, ◌++◌, All, subst, pick_then, pick_else,
}
use asif_os.Kern.Status.{ok}
use asif_os.Task.{
  Task, Nodes, Tasks, write_task, set_next, task_init, task_insert, task_new, task_new_at,
  first_registers,
}
use asif_os.Task.Chain.{
  first_or, last_or, Chain, Apart, write_same, write_other, Chain-write, Chain-append,
  Chain-set_next,
}

-- The tasks `xs` are the list, in order.
pub record Listed (s : Tasks) (xs : List ℕ) : Type 0 where
  pub head_at : s.head ≡ first_or xs 0
  pub tail_at : s.tail ≡ last_or 0 xs
  pub chain : Chain s.node 0 xs 0
  pub apart : Apart xs

pub last_or-append : (p x : ℕ) (xs : List ℕ) → last_or p (xs ++ (x ∷ [])) ≡ x
last_or-append p x [] = refl
last_or-append p x (y ∷ xs) = last_or-append y x xs

Apart-append : (x : ℕ) (xs : List ℕ) → Apart xs → All (λ y. y ≢ x) xs → Apart (xs ++ (x ∷ []))
Apart-append x [] apart out = (tt, tt)
Apart-append x (y ∷ xs) (here, apart) (ne, out) =
    (beside x y xs ne here, Apart-append x xs apart out)
  where
    beside :
        (x y : ℕ) (xs : List ℕ) → y ≢ x → All (λ z. z ≢ y) xs → All (λ z. z ≢ y) (xs ++ (x ∷ []))
    beside x y [] ne here = (λ e. ne (sym e), tt)
    beside x y (z ∷ xs) ne (h, here) = (h, beside x y xs ne here)

last_ne : (task x : ℕ) (xs : List ℕ) → All (λ y. y ≢ task) (x ∷ xs) → last_or x xs ≢ task
last_ne task x [] (ne, _) = ne
last_ne task x (y ∷ xs) (_, out) = last_ne task y xs out

-- The two writes that hang a task behind a list.
insert-Chain :
    (node : Nodes) (task x : ℕ) (xs : List ℕ)
    → Apart (x ∷ xs)
    → Chain node 0 (x ∷ xs) 0
    → task ≢ 0
    → All (λ y. y ≢ task) (x ∷ xs)
    → (node task).next ≡ 0
    → Chain
        (set_next
          (write_task node task (record (node task) { prev = last_or x xs }))
          (last_or x xs)
          task)
        0
        (x ∷ (xs ++ (task ∷ [])))
        0
insert-Chain node task x xs apart chain some_task out end =
    let last = last_or x xs in
    let hung : Task = record (node task) { prev = last } in
    let node1 : Nodes = write_task node task hung in
    let back : set_next node1 last task task ≡ hung =
      write_other node1 last (record (node1 last) { next = task }) task
        (λ e. last_ne task x xs out (sym e))
      ∙ write_same node task hung in
    Chain-append (set_next node1 last task) 0 (x ∷ xs) (task ∷ []) 0
      (Chain-set_next node1 0 x xs 0 task apart (Chain-write node task hung 0 (x ∷ xs) 0 out chain))
      (some_task, ap (λ t. t.prev) back, ap (λ t. t.next) back ∙ end, tt)

-- The task that is inserted lies behind all the others.
task_insert-Listed :
    (s : Tasks) (task : ℕ) (xs : List ℕ)
    → Listed s xs
    → task ≢ 0
    → All (λ x. x ≢ task) xs
    → (s.node task).prev ≡ 0
    → (s.node task).next ≡ 0
    → Listed (task_insert s task) (xs ++ (task ∷ []))
unfolding task_insert
task_insert-Listed s task [] l some_task out prev next =
    subst (λ s'. Listed s' (task ∷ []))
      (sym (pick_then l.head_at (record s { head = task; tail = task }) _))
      (record {
        head_at = refl;
        tail_at = refl;
        chain = (some_task, prev, next, tt);
        apart = (tt, tt);
      })
task_insert-Listed s task (x ∷ xs) l some_task out prev next =
    subst (λ s'. Listed s' (x ∷ (xs ++ (task ∷ []))))
      (sym
        (pick_else (λ e. l.chain.0 (sym l.head_at ∙ e)) (record s { head = task; tail = task }) _))
      (record {
        head_at = l.head_at;
        tail_at = sym (last_or-append x task xs);
        chain =
            subst
              (λ last.
                Chain
                  (set_next (write_task s.node task (record (s.node task) { prev = last })) last
                    task)
                  0 (x ∷ (xs ++ (task ∷ []))) 0)
              (sym l.tail_at) (insert-Chain s.node task x xs l.apart l.chain some_task out next);
        apart = Apart-append task (x ∷ xs) l.apart out;
      })

task_insert-keeps :
    (s : Tasks) (task : ℕ)
    → (((task_insert s task).node task).process ≡ (s.node task).process)
      × (((task_insert s task).node task).chunk ≡ (s.node task).chunk)
      × (((task_insert s task).node task).registers ≡ (s.node task).registers)
      × ((task_insert s task).current ≡ s.current)
      × ((task_insert s task).released ≡ s.released)
unfolding task_insert write_task
task_insert-keeps s task = (ground arith, ground arith, ground arith, ground arith, ground arith)

-- `task_new` with memory for the task and for its chunk puts a task that is not in the list at its
-- end: it runs the process from the start of the user program. The tasks before it keep
-- their order, the current task stays, and nothing is given back.
pub task_new-Listed :
    (s : Tasks) (process task chunk : ℕ) (xs : List ℕ)
    → Listed s xs
    → task ≢ 0
    → chunk ≢ 0
    → All (λ x. x ≢ task) xs
    → (s' : Tasks) × (task_new s process task chunk ≡ (ok task, s'))
      × Listed s' (xs ++ (task ∷ []))
      × ((s'.node task).process ≡ process)
      × ((s'.node task).chunk ≡ chunk)
      × ((s'.node task).registers ≡ first_registers)
      × (s'.current ≡ s.current)
      × (s'.released ≡ s.released)
unfolding task_new task_new_at task_init
task_new-Listed s process task chunk xs l some_task some_chunk out =
    let t : Task = record {
      chunk = chunk;
      registers = first_registers;
      process = process;
      prev = 0;
      next = 0;
    } in
    let s1 : Tasks = record s { node = write_task s.node task t } in
    let now : s1.node task ≡ t = write_same s.node task t in
    let (same_process, same_chunk, same_registers, same_current, same_released) =
      task_insert-keeps s1 task in
    let l1 : Listed s1 xs = record {
      head_at = l.head_at;
      tail_at = l.tail_at;
      chain = Chain-write s.node task t 0 xs 0 out l.chain;
      apart = l.apart;
    } in
    (
      task_insert s1 task,
      pick_else some_task _ _ ∙ ap (task_new_at s task) (pick_else some_chunk _ _),
      task_insert-Listed s1 task xs l1 some_task out (ap (λ t. t.prev) now) (ap (λ t. t.next) now),
      same_process ∙ ap (λ t. t.process) now,
      same_chunk ∙ ap (λ t. t.chunk) now,
      same_registers ∙ ap (λ t. t.registers) now,
      same_current,
      same_released,
    )
