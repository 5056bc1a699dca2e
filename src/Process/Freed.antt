-- ===== src/Process/Freed.antt =====
-- What `process_free` of src/kernel/task/process.c gives back, and a full table of processes.
use asif_os.Prelude.{
  ℕ, ◌+◌, ◌<◌, ◌≡◌, ◌≢◌, refl, sym, ap, ◌∙◌, arith, Option, some, List, [], ◌∷◌, ◌++◌, append_assoc,
  length, All, ◌>>=◌, >>=-assoc, >>=-some, fun_ext, ◌==◌, if◌then◌else◌, pick_else, get_or,
}
use asif_os.Kern.Status.{enomem, err}
use asif_os.Paging.{total_entries}
use asif_os.Paging.Translate.{table}
use asif_os.Paging.Made.{frees, frees-append, free_4gb_chunk_step}
use asif_os.Fs.{NuttleFs}
use asif_os.Task.{Tasks, release_block, release_chunk, task_free, task_list_remove}
use asif_os.Process.Kernel.{
  Kernel, with_heap, free_process_slot, process_free, drop_task, free_some, program_block,
  release_all,
}
use asif_os.Process.Load.{process_load, load_free_slot}

free_process_slot-full :
    (processes : List ℕ) (i : ℕ)
    → All (λ p. p ≢ 0) processes
    → free_process_slot processes i ≡ err enomem
unfolding free_process_slot
free_process_slot-full [] i full = refl
free_process_slot-full (p ∷ processes) i (some_process, full) =
    pick_else some_process _ _ ∙ free_process_slot-full processes (i + 1) full

task_free_lem :
    (s : Tasks) (task : ℕ)
    → task ≢ 0
    → (s.node task).chunk ≢ 0
    → task_free s task ≡ record (task_list_remove s task) {
      released = release_block task ∷ release_chunk (s.node task).chunk ∷ s.released;
    }
unfolding task_free
task_free_lem s task some_task some_chunk =
    pick_else some_task s _
    ∙ ap (λ r. record (task_list_remove s task) { released = release_block task ∷ r })
        (pick_else some_chunk s.released _)

module _ {S Data : Type 0} (malloc : S → ℕ → Option (ℕ × S)) (free : S → ℕ → Option S) where
  -- When every slot of the table holds a process, process_load answers ENOMEM, and the kernel is as
  -- before.
  pub process_load-full :
      (fs : NuttleFs S Data) (k : Kernel S Data) (filename stale : List ℕ)
      → All (λ p. p ≢ 0) k.processes
      → process_load malloc free fs k filename stale ≡ some (err enomem, k)
  unfolding process_load
  process_load-full fs k filename stale full =
      ap (load_free_slot malloc free fs k filename stale)
        (free_process_slot-full k.processes 0 full)

  -- The heap after the releases, in a kernel that is else the same.
  abbrev pub frees_in : Kernel S Data → List ℕ → Option (Kernel S Data)
  frees_in k blocks = frees malloc free k.files.heap blocks >>= λ s. some (with_heap k s)

  free_some_lem :
      (k : Kernel S Data) (block : ℕ) (rest : List ℕ)
      → block ≢ 0
      → (free_some malloc free k block >>= λ k'. frees_in k' rest) ≡ frees_in k (block ∷ rest)
  free_some_lem k block rest some_block =
      ap (λ m. m >>= λ k'. frees_in k' rest)
        (pick_else some_block (some k) (free k.files.heap block >>= λ s. some (with_heap k s)))
      ∙ >>=-assoc (free k.files.heap block) (λ s. some (with_heap k s)) (λ k'. frees_in k' rest)
      ∙ sym (
          >>=-assoc (free k.files.heap block) (λ s. frees malloc free s rest)
            (λ s. some (with_heap k s)))

  drop_task_lem :
      (k : Kernel S Data) (task : ℕ) (ts rest : List ℕ)
      → task ≢ 0
      → (k.tasks.node task).chunk ≢ 0
      → length ts ≡ total_entries
      → ((i : ℕ)
          → i < total_entries
          → table k.mem (k.mem (k.tasks.node task).chunk) i ≡ get_or ts i 0)
      → (drop_task malloc free k task >>= λ k'. frees_in k' rest)
        ≡ frees_in
            (record k { tasks = record (task_list_remove k.tasks task) { released = [] } })
            (ts ++ k.mem (k.tasks.node task).chunk ∷ (k.tasks.node task).chunk ∷ task ∷ rest)
  unfolding drop_task release_all task_list_remove
  drop_task_lem k task ts rest some_task some_chunk all same =
      let directory : ℕ = k.mem (k.tasks.node task).chunk in
      let chunk : ℕ = (k.tasks.node task).chunk in
      let heap : S = k.files.heap in
      let front : List ℕ = ts ++ directory ∷ chunk ∷ [] in
      let removed : Kernel S Data = record k {
        tasks = record (task_list_remove k.tasks task) { released = [] };
      } in
      let end : S → Option (Kernel S Data) = λ s. some (with_heap removed s) in
      ap
        (λ tasks.
          (release_all malloc free heap k.mem tasks.released >>= λ s.
          some (record (with_heap k s) { tasks = record tasks { released = [] } }))
          >>= λ k'. frees_in k' rest)
        (task_free_lem (record (k.tasks) { released = [] }) task some_task some_chunk)
      ∙ ap (λ m. ((m >>= λ s. free s task) >>= end) >>= λ k'. frees_in k' rest)
          (free_4gb_chunk_step malloc free ts heap k.mem directory chunk all some_chunk
            (λ i lt. same i (omega (arith, all))))
      ∙ >>=-assoc (frees malloc free heap front >>= λ s. free s task) end (λ k'. frees_in k' rest)
      ∙ >>=-assoc (frees malloc free heap front) (λ s. free s task)
          (λ s. frees_in (with_heap removed s) rest)
      ∙ ap (λ f. frees malloc free heap front >>= f)
          (fun_ext (λ s'. sym (>>=-assoc (free s' task) (λ s. frees malloc free s rest) end)))
      ∙ sym (>>=-assoc (frees malloc free heap front) (λ s. frees malloc free s (task ∷ rest)) end)
      ∙ ap (λ m. m >>= end)
          (sym (frees-append malloc free heap front (task ∷ rest))
            ∙ ap (frees malloc free heap) (append_assoc ts (directory ∷ chunk ∷ []) (task ∷ rest)))

  -- Where a process, its stack and its program have blocks, and its task a chunk of 1024 tables:
  -- process_free gives back the tables in their order, the directory, the chunk, the task, the stack, the
  -- block of the program and the process, in this order and nothing else; the task leaves the list, and
  -- everything else is as before, the slot of the process too.
  pub process_free-frees :
      (k : Kernel S Data) (addr task : ℕ) (ts : List ℕ)
      → addr ≢ 0
      → (k.process addr).task ≡ task
      → task ≢ 0
      → (k.tasks.node task).chunk ≢ 0
      → length ts ≡ total_entries
      → ((i : ℕ)
          → i < total_entries
          → table k.mem (k.mem (k.tasks.node task).chunk) i ≡ get_or ts i 0)
      → (k.process addr).stack ≢ 0
      → program_block (k.process addr).program ≢ 0
      → process_free malloc free k addr
        ≡ frees_in
            (record k { tasks = record (task_list_remove k.tasks task) { released = [] } })
            (ts
              ++ k.mem (k.tasks.node task).chunk
                ∷ (k.tasks.node task).chunk
                ∷ task
                ∷ (k.process addr).stack
                ∷ program_block (k.process addr).program
                ∷ addr
                ∷ [])
  unfolding process_free
  process_free-frees k addr task ts some_process at some_task some_chunk all same some_stack
        some_program =
      let stack : ℕ = (k.process addr).stack in
      let block : ℕ = program_block (k.process addr).program in
      let last : Kernel S Data → Option (Kernel S Data) = λ k'. free_some malloc free k' addr in
      let then_last =
        λ (k' : Kernel S Data). sym (>>=-some (last k')) ∙ free_some_lem k' addr [] some_process in
      pick_else some_process _ _
      ∙ ap
          (λ t. (if t == 0 then some k else drop_task malloc free k t) >>= λ k'.
            free_some malloc free k' stack >>= λ k''. free_some malloc free k'' block >>= last)
          at
      ∙ ap
          (λ m. m >>= λ k'.
            free_some malloc free k' stack >>= λ k''. free_some malloc free k'' block >>= last)
          (pick_else some_task _ _)
      ∙ ap (λ f. drop_task malloc free k task >>= f)
          (fun_ext (λ k'.
            ap (λ f. free_some malloc free k' stack >>= f)
              (fun_ext (λ k''.
                ap (λ f. free_some malloc free k'' block >>= f) (fun_ext then_last)
                ∙ free_some_lem k'' block (addr ∷ []) some_program))
            ∙ free_some_lem k' stack (block ∷ addr ∷ []) some_stack))
      ∙ drop_task_lem k task ts (stack ∷ block ∷ addr ∷ []) some_task some_chunk all same
