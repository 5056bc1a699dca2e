-- ===== src/Task/Order.antt =====
-- `task_list_remove` of src/kernel/task/task.c: the order of the tasks that stay, and the task that
-- runs next.
use asif_os.Prelude.{
  ℕ, ◌≡◌, ◌≢◌, refl, sym, ap, ap₂, ◌∙◌, List, [], ◌∷◌, ◌++◌, All, All-append_left, All-append_right,
  All-append, append-nil, ◌==◌, if◌then◌else◌, subst, pick_then, pick_else,
}
use asif_os.Task.{
  Task, Nodes, Tasks, set_next, set_prev, unlink_next, unlink_prev, task_list_remove,
}
use asif_os.Task.Chain.{
  first_or, last_or, Chain, Apart, write_other, Chain-write, Chain-append, Chain-split,
  Chain-set_next, Chain-set_prev,
}
use asif_os.Task.Listed.{Listed}

-- What there is to know of a list with no task twice, round one of its tasks.
record Around (xs : List ℕ) (task : ℕ) (ys : List ℕ) : Type 0 where
  front : Apart xs
  back : Apart ys
  not_front : All (λ x. x ≢ task) xs
  not_back : All (λ y. y ≢ task) ys
  across : All (λ x. All (λ y. y ≢ x) ys) xs
  rest : Apart (xs ++ ys)

around : (xs : List ℕ) (task : ℕ) (ys : List ℕ) → Apart (xs ++ (task ∷ ys)) → Around xs task ys
around [] task ys (out, apart) = record {
  front = tt;
  back = apart;
  not_front = tt;
  not_back = out;
  across = tt;
  rest = apart;
}
around (x ∷ xs) task ys (out, apart) =
    let r = around xs task ys apart in
    let out_front = All-append_left (λ y. y ≢ x) xs (task ∷ ys) out in
    let out_back = All-append_right (λ y. y ≢ x) xs (task ∷ ys) out in
    record {
      front = (out_front, r.front);
      back = r.back;
      not_front = (λ e. out_back.0 (sym e), r.not_front);
      not_back = r.not_back;
      across = (out_back.1, r.across);
      rest = (All-append (λ y. y ≢ x) xs ys out_front out_back.1, r.rest);
    }

All-last : (P : ℕ → Type 0) (x : ℕ) (xs : List ℕ) → All P (x ∷ xs) → P (last_or x xs)
All-last P x [] (h, _) = h
All-last P x (y ∷ xs) (_, h) = All-last P y xs h

All-first : (y : ℕ) (ys xs : List ℕ) → All (λ x. All (λ z. z ≢ x) (y ∷ ys)) xs → All (λ x. x ≢ y) xs
All-first y ys [] h = tt
All-first y ys (x ∷ xs) (here, h) = (λ e. here.0 (sym e), All-first y ys xs h)

last-some :
    (node : Nodes) (p x : ℕ) (xs : List ℕ) (q : ℕ) → Chain node p (x ∷ xs) q → last_or x xs ≢ 0
last-some node p x [] q (h, _, _, _) = h
last-some node p x (y ∷ xs) q (_, _, _, c) = last-some node x y xs q c

-- The two links that `task_list_remove` writes.
record Unlinked (node node' : Nodes) (xs : List ℕ) (task p : ℕ) (ys : List ℕ) : Type 0 where
  front : Chain node' 0 xs (first_or ys 0)
  back : Chain node' p ys 0
  task_same : node' task ≡ node task

unlink_next-Unlinked :
    (node : Nodes) (xs : List ℕ) (task : ℕ) (ys : List ℕ)
    → Around xs task ys
    → Chain node 0 (xs ++ (task ∷ ys)) 0
    → Unlinked node (unlink_next node task) xs task task ys
unfolding unlink_next
unlink_next-Unlinked node [] task ys r (some_task, prev, next, c) =
    let same = pick_then prev node (set_next node (node task).prev (node task).next) in
    record {
      front = tt;
      back = subst (λ m. Chain m task ys 0) (sym same) c;
      task_same = ap (λ m. m task) same;
    }
unlink_next-Unlinked node (x ∷ xs) task ys r c =
    let last : ℕ = last_or x xs in
    let next : ℕ = first_or ys 0 in
    let (front, (some_task, prev_at, next_at, back)) =
      Chain-split node 0 (x ∷ xs) (task ∷ ys) 0 c in
    let t : Task = record (node last) { next = next } in
    let written : unlink_next node task ≡ set_next node last next =
      pick_else (λ e. last-some node 0 x xs task front (sym prev_at ∙ e)) _ _
      ∙ ap₂ (set_next node) prev_at next_at in
    subst (λ m. Unlinked node m (x ∷ xs) task task ys) (sym written)
      (record {
        front = Chain-set_next node 0 x xs task next r.front front;
        back =
            Chain-write node last t task ys 0 (All-last (λ z. All (λ y. y ≢ z) ys) x xs r.across)
              back;
        task_same =
            write_other node last t task (λ e. All-last (λ z. z ≢ task) x xs r.not_front (sym e));
      })

unlink_prev-Unlinked :
    (node node1 : Nodes) (xs : List ℕ) (task : ℕ) (ys : List ℕ)
    → Around xs task ys
    → (node task).prev ≡ last_or 0 xs
    → (node task).next ≡ first_or ys 0
    → Unlinked node node1 xs task task ys
    → Unlinked node (unlink_prev node1 task) xs task (last_or 0 xs) ys
unfolding unlink_prev
unlink_prev-Unlinked node node1 xs task [] r prev next u =
    let same =
      pick_then (ap (λ t. t.next) u.task_same ∙ next) node1
        (set_prev node1 (node1 task).next (node1 task).prev) in
    subst (λ m. Unlinked node m xs task (last_or 0 xs) []) (sym same)
      (record { front = u.front; back = tt; task_same = u.task_same })
unlink_prev-Unlinked node node1 xs task (y ∷ ys) r prev next u =
    let before : ℕ = last_or 0 xs in
    let next_at = ap (λ t. t.next) u.task_same ∙ next in
    let t : Task = record (node1 y) { prev = before } in
    let written : unlink_prev node1 task ≡ set_prev node1 y before =
      pick_else (λ e. u.back.0 (sym next_at ∙ e)) _ _
      ∙ ap₂ (set_prev node1) next_at (ap (λ t. t.prev) u.task_same ∙ prev) in
    subst (λ m. Unlinked node m xs task before (y ∷ ys)) (sym written)
      (record {
        front = Chain-write node1 y t 0 xs y (All-first y ys xs r.across) u.front;
        back = Chain-set_prev node1 task before y ys 0 r.back u.back;
        task_same = write_other node1 y t task (λ e. r.not_back.0 (sym e)) ∙ u.task_same;
      })

last_or-append : (p : ℕ) (xs ys : List ℕ) → last_or p (xs ++ ys) ≡ last_or (last_or p xs) ys
last_or-append p [] ys = refl
last_or-append p (x ∷ xs) ys = last_or-append x xs ys

-- Both ends of a list after a removal, and the task that runs then.
new_head :
    (xs : List ℕ) (task : ℕ) (ys : List ℕ) (head next : ℕ)
    → Around xs task ys
    → head ≡ first_or (xs ++ (task ∷ ys)) 0
    → next ≡ first_or ys 0
    → (if head == task then next else head) ≡ first_or (xs ++ ys) 0
new_head [] task ys head next r e e' = pick_then e next head ∙ e'
new_head (x ∷ xs) task ys head next r e e' =
    pick_else (λ same. r.not_front.0 (sym e ∙ same)) next head ∙ e

new_tail :
    (xs : List ℕ) (task : ℕ) (ys : List ℕ) (tail prev : ℕ)
    → Around xs task ys
    → tail ≡ last_or 0 (xs ++ (task ∷ ys))
    → prev ≡ last_or 0 xs
    → (if tail == task then prev else tail) ≡ last_or 0 (xs ++ ys)
new_tail xs task [] tail prev r e e' =
    pick_then (e ∙ last_or-append 0 xs (task ∷ [])) prev tail
    ∙ e'
    ∙ ap (last_or 0) (sym (append-nil xs))
new_tail xs task (y ∷ ys) tail prev r e e' =
    let end = e ∙ last_or-append 0 xs (task ∷ y ∷ ys) in
    pick_else (λ same. All-last (λ z. z ≢ task) y ys r.not_back (sym end ∙ same)) prev tail
    ∙ end
    ∙ sym (last_or-append 0 xs (y ∷ ys))

new_current :
    (node : Nodes) (p : ℕ) (xs ys : List ℕ) (head next : ℕ)
    → Chain node p ys 0
    → head ≡ first_or (xs ++ ys) 0
    → next ≡ first_or ys 0
    → (if next == 0 then head else next) ≡ first_or (ys ++ xs) 0
new_current node p xs [] head next c e e' =
    pick_then e' head next ∙ e ∙ ap (λ zs. first_or zs 0) (append-nil xs)
new_current node p xs (y ∷ ys) head next c e e' =
    pick_else (λ null. c.0 (sym e' ∙ null)) head next ∙ e'

-- Removing a task from anywhere in the list leaves the others in their order. If it was the current
-- task, the one behind it is the current one then, or the first of the list when it was the
-- last, and none when it was alone; another current task stays. Nothing is given back.
pub task_list_remove-Listed :
    (s : Tasks) (xs : List ℕ) (task : ℕ) (ys : List ℕ)
    → Listed s (xs ++ (task ∷ ys))
    → Listed (task_list_remove s task) (xs ++ ys)
      × ((task_list_remove s task).current
          ≡ (if s.current == task then first_or (ys ++ xs) 0 else s.current))
      × ((task_list_remove s task).released ≡ s.released)
unfolding task_list_remove
task_list_remove-Listed s xs task ys l =
    let r = around xs task ys l.apart in
    let (_, (some_task, prev, next, _)) = Chain-split s.node 0 xs (task ∷ ys) 0 l.chain in
    let u =
      unlink_prev-Unlinked s.node (unlink_next s.node task) xs task ys r prev next
        (unlink_next-Unlinked s.node xs task ys r l.chain) in
    let node : Nodes = unlink_prev (unlink_next s.node task) task in
    let next_at : (node task).next ≡ first_or ys 0 = ap (λ t. t.next) u.task_same ∙ next in
    let prev_at : (node task).prev ≡ last_or 0 xs = ap (λ t. t.prev) u.task_same ∙ prev in
    let head = new_head xs task ys s.head (node task).next r l.head_at next_at in
    (
      record {
        head_at = head;
        tail_at = new_tail xs task ys s.tail (node task).prev r l.tail_at prev_at;
        chain = Chain-append node 0 xs ys 0 u.front u.back;
        apart = r.rest;
      },
      ap (λ c. if s.current == task then c else s.current)
          (new_current node (last_or 0 xs) xs ys _ (node task).next u.back head next_at),
      refl,
    )
