-- ===== src/Tests/TaskRuns.antt =====
-- Runs of src/kernel/task/task.c and src/kernel/stdkern/kernstr.c.
use asif_os.Prelude.{ℕ, ◌≡◌, ◌↔◌, refl, arith, List, [], ◌∷◌, ◌==◌, if◌then◌else◌}
use asif_os.Prelude.Int.{pos}
use asif_os.Kern.Status.{ok}
use asif_os.Kern.Str.{strcmpk}
use asif_os.Kern.Str.Compare.{strcmpk_iff}
use asif_os.Task.{Task, Tasks, first_registers, no_registers, task_new, task_list_remove}
use asif_os.Task.Listed.{Listed, task_new-Listed}
use asif_os.Task.Order.{task_list_remove-Listed}

abbrev task_at : (prev next : ℕ) → Task
task_at prev next = record {
  chunk = 1;
  registers = no_registers;
  process = 7;
  prev = prev;
  next = next;
}

-- Two tasks, of which the second is the current one.
abbrev two_tasks : Tasks
two_tasks = record {
  node = λ at. if at == 4096 then task_at 0 8192 else task_at 4096 0;
  head = 4096;
  tail = 8192;
  current = 8192;
  released = [];
}

two_tasks-Listed : Listed two_tasks (4096 ∷ 8192 ∷ [])
two_tasks-Listed = record {
  head_at = refl;
  tail_at = refl;
  chain = (λ e. omega arith, refl, refl, (λ e. omega arith, refl, refl, tt));
  apart = ((λ e. omega arith, tt), (tt, tt));
}

task_list_remove-Listed_example :
    Listed (task_list_remove two_tasks 8192) (4096 ∷ [])
    × ((task_list_remove two_tasks 8192).current ≡ 4096)
    × ((task_list_remove two_tasks 8192).released ≡ [])
task_list_remove-Listed_example =
    task_list_remove-Listed two_tasks (4096 ∷ []) 8192 [] two_tasks-Listed

task_new-Listed_example :
    (s' : Tasks) × (task_new two_tasks 9 12288 3 ≡ (ok 12288, s'))
    × Listed s' (4096 ∷ 8192 ∷ 12288 ∷ [])
    × ((s'.node 12288).process ≡ 9)
    × ((s'.node 12288).chunk ≡ 3)
    × ((s'.node 12288).registers ≡ first_registers)
    × (s'.current ≡ 8192)
    × (s'.released ≡ [])
task_new-Listed_example =
    task_new-Listed two_tasks 9 12288 3 (4096 ∷ 8192 ∷ []) two_tasks-Listed (λ e. omega arith)
      (λ e. omega arith) (λ e. omega arith, (λ e. omega arith, tt))

abbrev ab : List ℕ
ab = 65 ∷ 66 ∷ []

strcmpk_iff_example : (strcmpk ab (65 ∷ []) ≡ pos 0) ↔ (ab ≡ 65 ∷ [])
strcmpk_iff_example =
    strcmpk_iff ab (65 ∷ []) ((omega arith, omega arith), ((omega arith, omega arith), tt))
      ((omega arith, omega arith), tt)
