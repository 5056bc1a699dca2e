-- ===== src/Gdt.antt =====
-- src/kernel/gdt/gdt.c: encoding of segment descriptors. A `uint32_t` or `uint16_t` argument is a
-- natural number below its bound, which the theorems ask for; `kernel_panic` ends in `none`.
pub mod Decode
use asif_os.Prelude.{
  ℕ, ◌+◌, ◌*◌, ◌/◌, ◌%◌, ◌^◌, bit_or, bit_and, Option, none, some, List, [], ◌∷◌, ltb,
  if◌then◌else◌, ◌>>=◌,
}

-- `GDTEntryStructured`
pub record GdtEntryStructured : Type 0 where
  pub base : ℕ
  pub limit : ℕ
  pub access_and_flags : ℕ

-- `GDTEntry`: the eight bytes of a descriptor, in the order of their addresses.
pub record GdtEntry : Type 0 where
  pub target0 : ℕ
  pub target1 : ℕ
  pub target2 : ℕ
  pub target3 : ℕ
  pub target4 : ℕ
  pub target5 : ℕ
  pub target6 : ℕ
  pub target7 : ℕ

-- `encodeGDTEntry` behind its guard: every byte of the target is assigned.
pub encode_target : GdtEntryStructured → GdtEntry
encode_target source = record {
  target0 = bit_and source.limit 0xff;
  target1 = bit_and (source.limit / 2 ^ 8) 0xff;
  target2 = bit_and source.base 0xff;
  target3 = bit_and (source.base / 2 ^ 8) 0xff;
  target4 = bit_and (source.base / 2 ^ 16) 0xff;
  target5 = bit_and source.access_and_flags 0xff;
  target6 =
      bit_or (bit_and (source.limit / 2 ^ 16) 0xf)
        (source.access_and_flags / 2 ^ 8 * 2 ^ 4 % 2 ^ 8);
  target7 = bit_and (source.base / 2 ^ 24) 0xff;
}

-- `encodeGDTEntry`
unfoldable pub encode_gdt_entry : GdtEntryStructured → Option GdtEntry
unfolding encode_target
encode_gdt_entry source = if ltb 0xfffff source.limit then none else some (encode_target source)

-- `gdt_entry_from_structured`
unfoldable pub gdt_entry_from_structured : List GdtEntryStructured → Option (List GdtEntry)
gdt_entry_from_structured [] = some []
gdt_entry_from_structured (source ∷ structured) = encode_gdt_entry source >>= λ entry.
    gdt_entry_from_structured structured >>= λ entries. some (entry ∷ entries)
