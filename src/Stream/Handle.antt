-- ===== src/Stream/Handle.antt =====
-- `diskstream_new` and `diskstream_close` of src/kernel/disk/stream.c over an allocator.
use asif_os.Prelude.{ℕ, Bool, Option, none, some, ◌==◌, if◌then◌else◌, ◌>>=◌}
use asif_os.Stream.{DiskStream}
use asif_os.Disk.{disk_get}

module _ {S : Type 0} (malloc : S → ℕ → Option (ℕ × S)) (free : S → ℕ → Option S) where
  -- `diskstream_new`: the block, whether there is a disk, and the stream. Without memory the null pointer
  -- is written. `sizeof(NuttleDiskStream)` is 8.
  unfoldable pub diskstream_new : S → (negative : Bool) → Option ((ℕ × Bool × DiskStream) × S)
  diskstream_new s negative = malloc s 8 >>= λ (ptr, s').
      if ptr == 0 then none else some ((ptr, disk_get negative, record { pos = 0 }), s')

  -- `diskstream_close`
  unfoldable pub diskstream_close : S → (ptr : ℕ) → Option S
  diskstream_close s ptr = free s ptr
