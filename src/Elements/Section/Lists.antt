-- ===== src/Elements/Section/Lists.antt =====
-- src/elements/section.rs: the sections that are lists, each behind its length in bytes. A section is
-- the list that it holds.
use parity_wasm.Base.{List, length}
use parity_wasm.Elements.Codec.{Reader, Written}
use parity_wasm.Elements.Primitives.ByteOrder.{LittleEndian}
use parity_wasm.Elements.Primitives.CountedList
use parity_wasm.Elements.Primitives.CountedWriter.{counted}
use parity_wasm.Elements.Types.{TypeEntry, deserialize_type, serialize_type}
use parity_wasm.Elements.ImportEntry.{
  ImportEntry, TableType, MemoryType, deserialize_import_entry, serialize_import_entry,
  deserialize_table_type, serialize_table_type, deserialize_memory_type, serialize_memory_type,
}
use parity_wasm.Elements.ExportEntry.{ExportEntry, deserialize_export_entry, serialize_export_entry}
use parity_wasm.Elements.Segment.{
  ElementSegment, DataSegment, GlobalEntry, deserialize_element_segment, serialize_element_segment,
  deserialize_data_segment, serialize_data_segment, deserialize_global_entry,
  serialize_global_entry,
}
use parity_wasm.Elements.Func.{
  Func, FuncBody, deserialize_func, serialize_func, deserialize_func_body, serialize_func_body,
}
use parity_wasm.Elements.Section.SectionReader.{read_entries}

-- `CountedListWriter` into a `CountedWriter`, and `done`.
abbrev pub serialize_entries : {A : Type 0} → (A → Written) → List A → Written
serialize_entries s xs = counted (CountedList.serialize s (length xs) xs)

abbrev pub deserialize_type_section : Reader (List TypeEntry)
deserialize_type_section = read_entries deserialize_type

abbrev pub serialize_type_section : List TypeEntry → Written
serialize_type_section = serialize_entries serialize_type

abbrev pub deserialize_import_section : Reader (List ImportEntry)
deserialize_import_section = read_entries deserialize_import_entry

abbrev pub serialize_import_section : List ImportEntry → Written
serialize_import_section = serialize_entries serialize_import_entry

abbrev pub deserialize_function_section : Reader (List Func)
deserialize_function_section = read_entries deserialize_func

abbrev pub serialize_function_section : List Func → Written
serialize_function_section = serialize_entries serialize_func

abbrev pub deserialize_table_section : Reader (List TableType)
deserialize_table_section = read_entries deserialize_table_type

abbrev pub serialize_table_section : List TableType → Written
serialize_table_section = serialize_entries serialize_table_type

abbrev pub deserialize_memory_section : Reader (List MemoryType)
deserialize_memory_section = read_entries deserialize_memory_type

abbrev pub serialize_memory_section : List MemoryType → Written
serialize_memory_section = serialize_entries serialize_memory_type

abbrev pub deserialize_export_section : Reader (List ExportEntry)
deserialize_export_section = read_entries deserialize_export_entry

abbrev pub serialize_export_section : List ExportEntry → Written
serialize_export_section = serialize_entries serialize_export_entry

module _ (le : LittleEndian) where
  abbrev pub deserialize_global_section : Reader (List GlobalEntry)
  deserialize_global_section = read_entries (deserialize_global_entry le)

  abbrev pub serialize_global_section : List GlobalEntry → Written
  serialize_global_section = serialize_entries (serialize_global_entry le)

  abbrev pub deserialize_code_section : Reader (List FuncBody)
  deserialize_code_section = read_entries (deserialize_func_body le)

  abbrev pub serialize_code_section : List FuncBody → Written
  serialize_code_section = serialize_entries (serialize_func_body le)

  abbrev pub deserialize_element_section : Reader (List ElementSegment)
  deserialize_element_section = read_entries (deserialize_element_segment le)

  abbrev pub serialize_element_section : List ElementSegment → Written
  serialize_element_section = serialize_entries (serialize_element_segment le)

  abbrev pub deserialize_data_section : Reader (List DataSegment)
  deserialize_data_section = read_entries (deserialize_data_segment le)

  abbrev pub serialize_data_section : List DataSegment → Written
  serialize_data_section = serialize_entries (serialize_data_segment le)
