-- ===== src/Elements/RelocSection/Total.antt =====
-- The readers of relocations end on every input.
use parity_wasm.Base.{ℕ}
use parity_wasm.Base.Int.{ℤ}
use parity_wasm.Elements.Codec.{Bytes}
use parity_wasm.Elements.Total.{IsTotal}
use parity_wasm.Elements.Primitives.Total.{reader_rules}
use parity_wasm.Elements.RelocSection.{
  RelocationEntry, read_pair, read_triple, entry_of, deserialize_relocation_entry, section_name_of,
  deserialize_reloc_section,
}

pair-IsTotal : (entry : ℕ → ℕ → RelocationEntry) → IsTotal (read_pair entry)
pair-IsTotal entry = search reader_rules depth 14

triple-IsTotal : (entry : ℕ → ℕ → ℤ → RelocationEntry) → IsTotal (read_triple entry)
triple-IsTotal entry = search reader_rules depth 14

entry-IsTotal : IsTotal deserialize_relocation_entry
unfolding deserialize_relocation_entry entry_of
entry-IsTotal = search (reader_rules, pair-IsTotal, triple-IsTotal) depth 30

-- A section of relocations is read, or refused with an error, whatever the bytes are.
pub reloc_section-IsTotal : (name : Bytes) → IsTotal (deserialize_reloc_section name)
unfolding deserialize_reloc_section section_name_of
reloc_section-IsTotal name = search (reader_rules, entry-IsTotal) depth 20
