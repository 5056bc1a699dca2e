-- ===== src/Tests/PagingRuns.antt =====
-- A small chunk of src/kernel/paging/paging.c: the directory at address 0, the table `i` in page `i + 1`.
use asif_os.Prelude.{ℕ, ◌+◌, ◌*◌, ◌/◌, ◌^◌, ◌<◌, ◌≡◌, refl, arith, ltb, if◌then◌else◌, ◌∙◌, ap}
use asif_os.Kern.Status.{all_ok, ok}
use asif_os.Paging.{Memory, word_at, entry_page, map_to, get_physical_addr, total_entries}
use asif_os.Paging.Words.{entry_page_lem}
use asif_os.Paging.Translate.{table, IsValid}
use asif_os.Paging.Range.{map_to_lem}

abbrev pub boot : Memory
boot at = if ltb at 0x1000 then (at / 4 + 1) * 4096 else 0

boot_in : (at : ℕ) → boot at < 2 ^ 32
boot_in at = ground arith

boot_word : (i : ℕ) → i < total_entries → boot (word_at 0 i) ≡ (i + 1) * 4096
boot_word i lt = ground (arith, lt)

pub boot_table : (i : ℕ) → i < total_entries → table boot 0 i ≡ (i + 1) * 4096
boot_table i lt =
    ap entry_page (boot_word i lt) ∙ entry_page_lem ((i + 1) * 4096) (omega arith) ∙ omega arith

pub boot-IsValid : IsValid boot 0
boot-IsValid = record {
  word_in = boot_in;
  aligned = refl;
  off_directory = λ i lt e. omega (arith, boot_table i lt);
  apart = λ i j lt lt' ne e. ne (omega (arith, boot_table i lt, boot_table j lt'));
}

map_to_lem_example :
    (mem' : Memory) × (map_to boot 0 0x400000 0x1000000 0x1003000 7 ≡ (all_ok, mem'))
    × (get_physical_addr mem' 0 0x402123 ≡ ok 0x1002123)
map_to_lem_example =
    let (mem', done, v, new, old) =
      map_to_lem boot 0 0x400000 0x1000000 0x1003000 7 boot-IsValid (omega arith) refl refl refl
        (omega arith) (omega arith) (omega arith) (omega arith) (omega arith) in
    (mem', done, new 0x2123 (omega arith))
