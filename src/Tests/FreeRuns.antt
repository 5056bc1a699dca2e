-- ===== src/Tests/FreeRuns.antt =====
-- A process of src/kernel/task/process.c that is freed.
use asif_os.Prelude.{ℕ, zero, suc, ◌+◌, ◌*◌, ◌<◌, ◌≡◌, refl, ◌∙◌, sym, arith, [], ◌∷◌, ◌++◌, get_or}
use asif_os.Paging.{paging_size, total_entries}
use asif_os.Task.{task_list_remove}
use asif_os.Process.Map.{binary}
use asif_os.Process.Kernel.{Kernel, no_process, process_free}
use asif_os.Process.Freed.{process_free-frees, frees_in}
use asif_os.Tests.PagingRuns.{boot, boot_table}
use asif_os.Tests.ChunkRuns.{give, take_back, pages, length-pages}
use asif_os.Tests.LoadRuns.{kernel, other_task}

get_or-pages : (s n i : ℕ) → i < n → get_or (pages s n) i 0 ≡ s + i * paging_size
unfolding pages
get_or-pages s zero i lt = absurd (omega arith)
get_or-pages s (suc n) zero lt = omega arith
get_or-pages s (suc n) (suc i) lt = get_or-pages (s + paging_size) n i (omega arith) ∙ omega arith

-- A process with the chunk of `boot`.
abbrev running : Kernel ℕ ℕ
running = record kernel {
  mem = boot;
  tasks = record {
    node = λ at. record other_task { chunk = 0x700000; process = 0x500000 };
    head = 0x600000;
    tail = 0x600000;
    current = 0x600000;
    released = [];
  };
  process = λ at. record no_process {
    task = 0x600000;
    stack = 0x800000;
    program = binary 0x900000 1 (0 ∷ []);
  };
}

process_free-frees_example :
    process_free give take_back running 0x500000
    ≡ frees_in give take_back
        (record running {
          tasks = record (task_list_remove running.tasks 0x600000) { released = [] };
        })
        (pages 4096 total_entries ++ 0 ∷ 0x700000 ∷ 0x600000 ∷ 0x800000 ∷ 0x900000 ∷ 0x500000 ∷ [])
process_free-frees_example =
    process_free-frees give take_back running 0x500000 0x600000 (pages 4096 total_entries)
      (λ e. omega arith) refl (λ e. omega arith) (λ e. omega arith)
      (length-pages 4096 total_entries)
      (λ i lt. boot_table i lt ∙ omega arith ∙ sym (get_or-pages 4096 total_entries i lt))
      (λ e. omega arith) (λ e. omega arith)
