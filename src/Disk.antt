-- ===== src/Disk.antt =====
-- src/kernel/disk/disk.c: the driver of the ATA disk, with 48-bit block addresses.
pub mod Address
pub mod Serve
pub mod Mount
use asif_os.Prelude.{
  ℕ, zero, suc, ◌+◌, ◌-◌, ◌*◌, ◌/◌, ◌%◌, ◌^◌, Bool, true, false, Option, none, some, List, [], ◌∷◌,
  ◌++◌, ◌==◌, if◌then◌else◌, ◌>>=◌, bit_and,
}
use asif_os.Kern.Status.{Status, all_ok, einvarg}
use asif_os.Io.{Ports, inb, outb}

-- What `disk_read_sectors` writes before it waits: the drive, the high bytes of the count and of the
-- block address, their low bytes, and the command READ SECTORS EXT.
abbrev pub request : (lba sector_count : ℕ) → Ports → Ports
request lba sector_count ports = outb 0x1f7 0x24 (
    outb 0x1f5 (lba / 2 ^ 16 % 256) (
      outb 0x1f4 (lba / 2 ^ 8 % 256) (
        outb 0x1f3 (lba % 256) (
          outb 0x1f2 (sector_count % 256) (
            outb 0x1f5 (lba / 2 ^ 40 % 256) (
              outb 0x1f4 (lba / 2 ^ 32 % 256) (
                outb 0x1f3 (lba / 2 ^ 24 % 256)
                  (outb 0x1f2 (sector_count / 2 ^ 8 % 256) (outb 0x1f6 0x40 ports)))))))))

-- The loop that waits for the disk, with `fuel` reads of its status.
unfoldable pub wait_ready : ℕ → Ports → Option Ports
wait_ready zero ports = none
wait_ready (suc fuel) ports = inb 0x1f7 ports >>= λ (response, ports').
    let rest = wait_ready fuel ports' in if bit_and response 0x8 == 0 then rest else some ports'

-- The words of a sector.
unfoldable pub read_words : ℕ → Ports → Option (List ℕ × Ports)
read_words zero ports = some ([], ports)
read_words (suc n) ports = inb 0x1f0 ports >>= λ (word, ports').
    read_words n ports' >>= λ (words, last). some (word ∷ words, last)

unfoldable pub read_loop : (fuel sectors : ℕ) → Ports → Option (List ℕ × Ports)
unfolding wait_ready read_words
read_loop fuel zero ports = some ([], ports)
read_loop fuel (suc sectors) ports = wait_ready fuel ports >>= λ ready.
    read_words 256 ready >>= λ (words, ports').
    read_loop fuel sectors ports' >>= λ (rest, last). some (words ++ rest, last)

-- `disk_read_sectors`
unfoldable pub read_sectors : (fuel lba sector_count : ℕ) → Ports → Option (Status × List ℕ × Ports)
unfolding read_loop
read_sectors fuel lba sector_count ports =
    read_loop fuel sector_count (request lba sector_count ports) >>= λ (words, last).
    some (all_ok, words, last)

-- `disk_read_block`; whether the disk is the primary one.
unfoldable pub disk_read_block :
    (fuel : ℕ) → Bool → (lba sector_count : ℕ) → Ports → Option (Status × List ℕ × Ports)
unfolding read_sectors
disk_read_block fuel false lba sector_count ports = some (einvarg, [], ports)
disk_read_block fuel true lba sector_count ports = read_sectors fuel lba sector_count ports

-- `disk_get`: the primary disk for any index that is not negative.
abbrev pub disk_get : (negative : Bool) → Bool
disk_get true = false
disk_get false = true
