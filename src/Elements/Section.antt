-- ===== src/Elements/Section.antt =====
-- src/elements/section.rs: the sections of a module.
pub mod SectionReader
pub mod Lists
pub mod RoundTrip
pub mod Total
use parity_wasm.Base.{
  ℕ, ◌==◌, if◌then◌else◌, List, [], ◌∷◌, ok, err, panic, out_of_fuel, length, Outcome,
}
use parity_wasm.Elements.Error.{Error, unexpected_eof, invalid_section_id}
use parity_wasm.Elements.Codec.{Bytes, Reader, ◌>>=◌, pure, fail, Written, ◌⊹◌}
use parity_wasm.Elements.Primitives.ByteOrder.{LittleEndian}
use parity_wasm.Elements.Primitives.VarUint7
use parity_wasm.Elements.Primitives.VarUint32
use parity_wasm.Elements.Primitives.CountedList
use parity_wasm.Elements.Primitives.CountedWriter.{counted}
use parity_wasm.Elements.Primitives.Text
use parity_wasm.Elements.Types.{TypeEntry, deserialize_type, serialize_type}
use parity_wasm.Elements.ImportEntry.{
  ImportEntry, TableType, MemoryType, deserialize_import_entry, serialize_import_entry,
  deserialize_table_type, serialize_table_type, deserialize_memory_type, serialize_memory_type,
}
use parity_wasm.Elements.ExportEntry.{ExportEntry, deserialize_export_entry, serialize_export_entry}
use parity_wasm.Elements.Segment.{
  ElementSegment, DataSegment, GlobalEntry, deserialize_element_segment, serialize_element_segment,
  deserialize_data_segment, serialize_data_segment, deserialize_global_entry,
  serialize_global_entry,
}
use parity_wasm.Elements.Func.{
  Func, FuncBody, deserialize_func, serialize_func, deserialize_func_body, serialize_func_body,
}
use parity_wasm.Elements.NameSection.{NameSection, serialize_name_section}
use parity_wasm.Elements.RelocSection.{RelocSection, serialize_reloc_section}
use parity_wasm.Elements.Section.Lists.{
  deserialize_type_section, serialize_type_section, deserialize_import_section,
  serialize_import_section, deserialize_function_section, serialize_function_section,
  deserialize_table_section, serialize_table_section, deserialize_memory_section,
  serialize_memory_section, deserialize_global_section, serialize_global_section,
  deserialize_export_section, serialize_export_section, deserialize_code_section,
  serialize_code_section, deserialize_element_section, serialize_element_section,
  deserialize_data_section, serialize_data_section,
}
use parity_wasm.Elements.Section.SectionReader.{in_section, read_entries, read_ahead}

pub record CustomSection : Type 0 where
  pub name : Bytes
  pub payload : Bytes

-- The sections that are lists, `TypeSection` and so on, are those lists. `data_segments` is `Data`,
-- which is a word of antt.
pub data Section : Type 0 where
  unparsed : ℕ → Bytes → Section
  custom : CustomSection → Section
  type : List TypeEntry → Section
  import : List ImportEntry → Section
  function : List Func → Section
  table : List TableType → Section
  memory : List MemoryType → Section
  global : List GlobalEntry → Section
  export : List ExportEntry → Section
  start : ℕ → Section
  element : List ElementSegment → Section
  code : List FuncBody → Section
  data_segments : List DataSegment → Section
  name : NameSection → Section
  reloc : RelocSection → Section

-- What is left of the buffer after the name is the payload.
unfoldable pub custom_of : Outcome Error (Bytes × Bytes) → Reader CustomSection
custom_of (ok (text, payload)) = pure (record { name = text; payload = payload })
custom_of (err e) = fail e
custom_of panic = λ _. panic
custom_of out_of_fuel = λ _. out_of_fuel

unfoldable pub deserialize_custom_section : Reader CustomSection
unfolding custom_of
deserialize_custom_section = do buf ← read_ahead 16384; custom_of (Text.deserialize buf)

unfoldable pub serialize_custom_section : CustomSection → Written
serialize_custom_section c = counted (Text.serialize c.name ⊹ ok c.payload)

module _ (le : LittleEndian) where
  unfoldable pub section_of : ℕ → Reader Section
  section_of id =
      if id == 0
      then (do c ← deserialize_custom_section; pure (custom c))
      else if id == 1
      then (do entries ← deserialize_type_section; pure (type entries))
      else if id == 2
      then (do entries ← deserialize_import_section; pure (import entries))
      else if id == 3
      then (do entries ← deserialize_function_section; pure (function entries))
      else if id == 4
      then (do entries ← deserialize_table_section; pure (table entries))
      else if id == 5
      then (do entries ← deserialize_memory_section; pure (memory entries))
      else if id == 6
      then (do entries ← deserialize_global_section le; pure (global entries))
      else if id == 7
      then (do entries ← deserialize_export_section; pure (export entries))
      else if id == 8
      then (do start_idx ← in_section VarUint32.deserialize; pure (start start_idx))
      else if id == 9
      then (do entries ← deserialize_element_section le; pure (element entries))
      else if id == 10
      then (do entries ← deserialize_code_section le; pure (code entries))
      else if id == 11
      then (do entries ← deserialize_data_section le; pure (data_segments entries))
      else fail (invalid_section_id id)

  -- Any error in the place of an id is the end of the file.
  after_id : Outcome Error (ℕ × Bytes) → Outcome Error (Section × Bytes)
  unfolding section_of
  after_id (ok (id, src)) = section_of id src
  after_id (err _) = err unexpected_eof
  after_id panic = panic
  after_id out_of_fuel = out_of_fuel

  unfoldable pub deserialize : Reader Section
  unfolding after_id
  deserialize src = after_id (VarUint7.deserialize src)

  name_custom : Written → Written
  name_custom (ok payload) =
      serialize_custom_section (record { name = 0x6e ∷ 0x61 ∷ 0x6d ∷ 0x65 ∷ []; payload = payload })
  name_custom (err e) = err e
  name_custom panic = panic
  name_custom out_of_fuel = out_of_fuel

  unfoldable pub serialize : Section → Written
  unfolding name_custom
  serialize (custom c) = VarUint7.serialize 0x00 ⊹ serialize_custom_section c
  serialize (unparsed id payload) = VarUint7.serialize id ⊹ ok payload
  serialize (type entries) = VarUint7.serialize 0x01 ⊹ serialize_type_section entries
  serialize (import entries) = VarUint7.serialize 0x02 ⊹ serialize_import_section entries
  serialize (function entries) = VarUint7.serialize 0x03 ⊹ serialize_function_section entries
  serialize (table entries) = VarUint7.serialize 0x04 ⊹ serialize_table_section entries
  serialize (memory entries) = VarUint7.serialize 0x05 ⊹ serialize_memory_section entries
  serialize (global entries) = VarUint7.serialize 0x06 ⊹ serialize_global_section le entries
  serialize (export entries) = VarUint7.serialize 0x07 ⊹ serialize_export_section entries
  serialize (start index) = VarUint7.serialize 0x08 ⊹ counted (VarUint32.serialize index)
  serialize (element entries) = VarUint7.serialize 0x09 ⊹ serialize_element_section le entries
  serialize (code bodies) = VarUint7.serialize 0x0a ⊹ serialize_code_section le bodies
  serialize (data_segments entries) = VarUint7.serialize 0x0b ⊹ serialize_data_section le entries
  serialize (name n) = VarUint7.serialize 0x00 ⊹ name_custom (serialize_name_section n)
  serialize (reloc r) = VarUint7.serialize 0x00 ⊹ serialize_reloc_section r

unfoldable pub section_id : Section → ℕ
section_id (type _) = 0x1
section_id (import _) = 0x2
section_id (function _) = 0x3
section_id (table _) = 0x4
section_id (memory _) = 0x5
section_id (global _) = 0x6
section_id (export _) = 0x7
section_id (start _) = 0x8
section_id (element _) = 0x9
section_id (code _) = 0x0a
section_id (data_segments _) = 0x0b
section_id (custom _) = 0x00
section_id (unparsed _ _) = 0x00
section_id (name _) = 0x00
section_id (reloc _) = 0x00
