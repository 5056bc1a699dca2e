-- ===== src/Task/Tss.antt =====
-- src/kernel/task/tss.c: the task state segment, as its 27 words.
use asif_os.Prelude.{ℕ, List, set, replicate}

-- NUTTLE_KERNEL_DATA_SEGMENT_SELECTOR
abbrev pub kernel_data_selector : ℕ
kernel_data_selector = 0x10

-- `tss_init`: `esp0` and `ss0` are the second and the third word.
unfoldable pub tss_init : List ℕ
tss_init = set (set (replicate 27 0) 1 0x600000) 2 kernel_data_selector
