-- ===== src/Keyboard/Queue.antt =====
-- The queue of events that the buffer of src/kernel/keyboard/keyboard.c stands for: at most 1024,
-- none of them 0, oldest first.
use asif_os.Prelude.{ℕ, List, [], ◌∷◌, ◌++◌, ◌==◌, if◌then◌else◌, length}
use asif_os.Kern.Status.{Status, all_ok, einvarg, enomem}
use asif_os.Keyboard.{max_buffer, Op, push_op, pop_op, Reply, pushed, popped}

unfoldable pub push : List ℕ → ℕ → Status × List ℕ
push q x =
    if x == 0
    then (einvarg, q)
    else if length q == max_buffer
    then (enomem, q)
    else (all_ok, q ++ (x ∷ []))

unfoldable pub pop : List ℕ → ℕ × List ℕ
pop [] = (0, [])
pop (x ∷ q) = (x, q)

unfoldable pub run : List ℕ → List Op → List Reply
run q [] = []
run q (push_op x ∷ ops) = let (s, q') = push q x in pushed s ∷ run q' ops
run q (pop_op ∷ ops) = let (x, q') = pop q in popped x ∷ run q' ops
