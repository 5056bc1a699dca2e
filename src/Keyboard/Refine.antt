-- ===== src/Keyboard/Refine.antt =====
-- The circular buffer of src/kernel/keyboard/keyboard.c against a queue of at most 1024 events.
use asif_os.Prelude.{
  ℕ, zero, suc, ◌+◌, ◌-◌, ◌%◌, ◌≤◌, ◌<◌, ◌≡◌, ◌≢◌, refl, ap, ap₂, ◌∙◌, some, List, [], ◌∷◌, ◌++◌,
  arith, length, length-set, get_or, set, get_or-set_self, get_or-set_ne, store-set, load-get_or,
  ℕ_discrete, store,
}
use asif_os.Keyboard.Queue
use asif_os.Keyboard.{max_buffer, KeyboardBuffer, init_buffer, push, pop, Op, push_op, pop_op, run}

pub record IsValid (b : KeyboardBuffer) : Type 0 where
  pub room : length b.buffer ≡ max_buffer
  pub head_in : b.head < max_buffer
  pub size_in : b.size ≤ max_buffer
  pub tail_at : b.tail ≡ (b.head + b.size) % max_buffer

-- The `n` events from index `h` on, round the end of the array.
abbrev pub collect : List ℕ → ℕ → ℕ → List ℕ
collect xs h zero = []
collect xs h (suc n) = get_or xs (h % max_buffer) 0 ∷ collect xs (h + 1) n

abbrev pub contents : KeyboardBuffer → List ℕ
contents b = collect b.buffer b.head b.size

collect-mod :
    (xs : List ℕ) (n h k : ℕ) → h % max_buffer ≡ k % max_buffer → collect xs h n ≡ collect xs k n
collect-mod xs zero h k e = refl
collect-mod xs (suc n) h k e =
    ap₂ (λ i rest. get_or xs i 0 ∷ rest) e (collect-mod xs n (h + 1) (k + 1) (omega arith))

pub length-collect : (xs : List ℕ) (h n : ℕ) → length (collect xs h n) ≡ n
length-collect xs h zero = refl
length-collect xs h (suc n) = ap suc (length-collect xs (h + 1) n)

-- Writing behind the last of fewer than 1024 events appends.
collect-set :
    (xs : List ℕ) (v n h : ℕ)
    → length xs ≡ max_buffer
    → n < max_buffer
    → collect (set xs ((h + n) % max_buffer) v) h (suc n) ≡ collect xs h n ++ (v ∷ [])
collect-set xs v zero h e lt =
    let same : (h + 0) % max_buffer ≡ h % max_buffer = omega arith in
    rw same (ap (λ x. x ∷ []) (get_or-set_self xs (h % max_buffer) v 0 (omega arith)))
collect-set xs v (suc n) h e lt =
    let at : (h + suc n) % max_buffer ≡ (h + 1 + n) % max_buffer = omega arith in
    ap₂ ◌∷◌ (get_or-set_ne xs ((h + suc n) % max_buffer) (h % max_buffer) v 0 (λ eq. omega arith)) (
      ap (λ i. collect (set xs i v) (h + 1) (suc n)) at
      ∙ collect-set xs v n (h + 1) e (omega arith))

collect-push :
    (xs : List ℕ) (v n h i m : ℕ)
    → length xs ≡ max_buffer
    → n < max_buffer
    → i ≡ (h + n) % max_buffer
    → m ≡ suc n
    → collect (set xs i v) h m ≡ collect xs h n ++ (v ∷ [])
collect-push xs v n h i m e lt ei em = rw (ei, em) (collect-set xs v n h e lt)

push_valid :
    {b : KeyboardBuffer} (x : ℕ)
    → IsValid b
    → b.size ≢ max_buffer
    → store b.buffer b.tail x ≡ some (set b.buffer b.tail x)
push_valid {b} x v ne = store-set b.buffer b.tail x (omega (arith, v.room, v.tail_at))

-- `keyboard_push` answers as the queue does, leaves the buffer holding the queue, and keeps it valid.
pub push_refines :
    (b : KeyboardBuffer) (x : ℕ)
    → IsValid b
    → (b' : KeyboardBuffer) × (push b x ≡ some ((Queue.push (contents b) x).0, b'))
      × (contents b' ≡ (Queue.push (contents b) x).1)
      × IsValid b'
unfolding push Queue.push
push_refines b x v =
    let len = length-collect b.buffer b.head b.size in
    elim (ℕ_discrete x 0) [
      | yes none_given ↦ (b, ground arith, ground arith, v)
      | no event ↦ elim (ℕ_discrete b.size max_buffer) [
        | yes full ↦ (b, ground arith, ground arith, v)
        | no open_slot ↦
            let written = push_valid x v open_slot in
            let appended =
              collect-push b.buffer x b.size b.head b.tail (b.size + 1) v.room (omega arith)
                v.tail_at (omega arith) in
            (
              record b {
                tail = (b.tail + 1) % max_buffer;
                size = b.size + 1;
                buffer = set b.buffer b.tail x;
              },
              ground (arith, len, written),
              ground (arith, len, appended),
              record {
                room = length-set b.buffer b.tail x ∙ v.room;
                head_in = v.head_in;
                size_in = omega arith;
                tail_at = omega arith;
              },
            )
      ]
    ]

collect_none : (b : KeyboardBuffer) → b.size ≡ 0 → contents b ≡ []
collect_none b e = ap (collect b.buffer b.head) e

collect_some :
    (b : KeyboardBuffer)
    → IsValid b
    → b.size ≢ 0
    → contents b
      ≡ get_or b.buffer b.head 0 ∷ collect b.buffer ((b.head + 1) % max_buffer) (b.size - 1)
collect_some b v ne =
    let more : b.size ≡ suc (b.size - 1) = omega arith in
    ap (collect b.buffer b.head) more
    ∙ ap₂ (λ i rest. get_or b.buffer i 0 ∷ rest) (omega arith)
        (collect-mod b.buffer (b.size - 1) (b.head + 1) ((b.head + 1) % max_buffer) (omega arith))

-- `keyboard_pop` likewise.
pub pop_refines :
    (b : KeyboardBuffer)
    → IsValid b
    → (b' : KeyboardBuffer) × (pop b ≡ some ((Queue.pop (contents b)).0, b'))
      × (contents b' ≡ (Queue.pop (contents b)).1)
      × IsValid b'
unfolding pop Queue.pop
pop_refines b v = elim (ℕ_discrete b.size 0) [
  | yes empty ↦ (b, ground (arith, collect_none b empty), ground (arith, collect_none b empty), v)
  | no some_event ↦
      let first = collect_some b v some_event in
      let read = load-get_or b.buffer b.head 0 (omega arith) in
      (
        record b { head = (b.head + 1) % max_buffer; size = b.size - 1 },
        ground (arith, first, read),
        ground (arith, first),
        record {
          room = v.room;
          head_in = omega arith;
          size_in = omega arith;
          tail_at = omega arith;
        },
      )
]

-- No sequence of calls tells a valid buffer from the queue of its contents, and none of them
-- accesses the array out of its range.
pub run_refines :
    (ops : List Op) (b : KeyboardBuffer) → IsValid b → run b ops ≡ some (Queue.run (contents b) ops)
unfolding run Queue.run
run_refines [] b v = refl
run_refines (push_op x ∷ ops) b v =
    let (b', done, holds, v') = push_refines b x v in rw (done, run_refines ops b' v', holds)
run_refines (pop_op ∷ ops) b v =
    let (b', done, holds, v') = pop_refines b v in rw (done, run_refines ops b' v', holds)

-- `keyboard_init_buffer` makes a buffer of 1024 slots valid and empty.
pub init_buffer-IsValid :
    (b : KeyboardBuffer)
    → length b.buffer ≡ max_buffer
    → IsValid (init_buffer b) × (contents (init_buffer b) ≡ [])
unfolding init_buffer
init_buffer-IsValid b e =
    (record { room = e; head_in = omega arith; size_in = omega arith; tail_at = refl }, refl)
