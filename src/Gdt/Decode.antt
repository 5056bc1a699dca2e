-- ===== src/Gdt/Decode.antt =====
-- The descriptors of src/kernel/gdt/gdt.c read the way the processor reads them.
use asif_os.Prelude.{
  ℕ, ◌+◌, ◌*◌, ◌/◌, ◌%◌, ◌^◌, ◌≤◌, ◌<◌, ◌≡◌, refl, ap, ◌∙◌, bit_or, bit_and, none, some, List, [],
  ◌∷◌, All, arith,
}
use asif_os.Prelude.Bits.{bit_or_shifted, bit_and_mask, bit_or_comm}
use asif_os.Gdt.{
  GdtEntryStructured, GdtEntry, encode_target, encode_gdt_entry, gdt_entry_from_structured,
}

-- The processor's view of a descriptor: bits 0..15 and 48..51 are the limit, 16..39 and 56..63 the
-- base, 40..47 the access byte and 52..55 the flags.
unfoldable pub decode : GdtEntry → GdtEntryStructured
decode e = record {
  base = e.target2 + e.target3 * 2 ^ 8 + e.target4 * 2 ^ 16 + e.target7 * 2 ^ 24;
  limit = e.target0 + e.target1 * 2 ^ 8 + e.target6 % 2 ^ 4 * 2 ^ 16;
  access_and_flags = e.target5 + e.target6 / 2 ^ 4 * 2 ^ 8;
}

-- A source that the descriptor's fields can hold: a 32-bit base, a 20-bit limit, 8 access bits and
-- 4 flags.
pub record Fits (source : GdtEntryStructured) : Type 0 where
  pub base_in : source.base < 2 ^ 32
  pub limit_in : source.limit < 2 ^ 20
  pub access_in : source.access_and_flags < 2 ^ 12

target6_fields :
    (a b : ℕ)
    → a < 2 ^ 4
    → b < 2 ^ 4
    → (bit_or a (b * 2 ^ 4 % 2 ^ 8) % 2 ^ 4 ≡ a) × (bit_or a (b * 2 ^ 4 % 2 ^ 8) / 2 ^ 4 ≡ b)
target6_fields a b lt lt' =
    let joined : bit_or a (b * 2 ^ 4 % 2 ^ 8) ≡ b * 2 ^ 4 + a =
      bit_or_comm a (b * 2 ^ 4 % 2 ^ 8)
      ∙ ap (λ (i : ℕ). bit_or i a) (omega arith)
      ∙ bit_or_shifted 4 b a lt in
    (omega (arith, joined), omega (arith, joined))

structured_ext :
    {s t : GdtEntryStructured}
    → s.base ≡ t.base
    → s.limit ≡ t.limit
    → s.access_and_flags ≡ t.access_and_flags
    → s ≡ t
structured_ext b l a = λ i. record { base = b i; limit = l i; access_and_flags = a i }

-- A source whose limit fits is encoded, and the processor reads the same base, limit, access byte
-- and flags from the descriptor.
pub decode-encode :
    (source : GdtEntryStructured)
    → Fits source
    → (entry : GdtEntry) × (encode_gdt_entry source ≡ some entry) × (decode entry ≡ source)
unfolding encode_gdt_entry encode_target decode
decode-encode source fits =
    let limit_top = bit_and_mask 4 (source.limit / 2 ^ 16) in
    let (low, high) =
      target6_fields (bit_and (source.limit / 2 ^ 16) 0xf) (source.access_and_flags / 2 ^ 8)
        (omega (arith, limit_top)) (omega (arith, fits.access_in)) in
    let byte = bit_and_mask 8 in
    (
      encode_target source,
      ground (arith, fits.limit_in),
      structured_ext
          (omega (
            arith,
            fits.base_in,
            byte source.base,
            byte (source.base / 2 ^ 8),
            byte (source.base / 2 ^ 16),
            byte (source.base / 2 ^ 24),
          ))
          (omega
            (arith, fits.limit_in, low, limit_top, byte source.limit, byte (source.limit / 2 ^ 8)))
          (omega (arith, high, byte source.access_and_flags)),
    )

-- A limit of more than 20 bits is a panic.
pub encode-panics :
    (source : GdtEntryStructured) → 2 ^ 20 ≤ source.limit → encode_gdt_entry source ≡ none
unfolding encode_gdt_entry
encode-panics source big = ground (arith, big)

pub data Decodes : List GdtEntryStructured → List GdtEntry → Type 0 where
  decodes_none : Decodes [] []
  decodes_more :
      {source : GdtEntryStructured} {entry : GdtEntry} {structured : List GdtEntryStructured}
      {entries : List GdtEntry}
      → decode entry ≡ source
      → Decodes structured entries
      → Decodes (source ∷ structured) (entry ∷ entries)

-- The whole table: `gdt_entry_from_structured` encodes every source, in order.
pub table-Decodes :
    (structured : List GdtEntryStructured)
    → All Fits structured
    → (entries : List GdtEntry) × (gdt_entry_from_structured structured ≡ some entries)
      × Decodes structured entries
unfolding gdt_entry_from_structured
table-Decodes [] fits = ([], refl, decodes_none)
table-Decodes (source ∷ structured) (fit, fits) =
    let (entry, encoded, same) = decode-encode source fit in
    let (entries, rest, more) = table-Decodes structured fits in
    (entry ∷ entries, rw (encoded, rest) refl, decodes_more same more)
