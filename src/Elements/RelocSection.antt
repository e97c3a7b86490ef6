-- ===== src/Elements/RelocSection.antt =====
-- src/elements/reloc_section.rs: relocation entries, and the custom sections that hold them.
pub mod RoundTrip
pub mod Total
use parity_wasm.Base.{ℕ, ◌==◌, if◌then◌else◌, List, [], ok, Option, none, some, length}
use parity_wasm.Base.Int.{ℤ, signed}
use parity_wasm.Elements.Error.{unknown_value_type}
use parity_wasm.Elements.Codec.{Bytes, Reader, ◌>>=◌, pure, fail, Written, ◌⊹◌}
use parity_wasm.Elements.Primitives.VarUint7
use parity_wasm.Elements.Primitives.VarUint32
use parity_wasm.Elements.Primitives.VarInt32
use parity_wasm.Elements.Primitives.CountedList
use parity_wasm.Elements.Primitives.CountedWriter.{counted}
use parity_wasm.Elements.Primitives.Text

-- Each entry has an offset and an index, those of memory addresses an addend too.
pub data RelocationEntry : Type 0 where
  function_index_leb table_index_sleb table_index_i32 : ℕ → ℕ → RelocationEntry
  memory_address_leb memory_address_sleb memory_address_i32 : ℕ → ℕ → ℤ → RelocationEntry
  type_index_leb global_index_leb : ℕ → ℕ → RelocationEntry

abbrev pub read_pair : (ℕ → ℕ → RelocationEntry) → Reader RelocationEntry
read_pair entry = do
  offset ← VarUint32.deserialize
  index ← VarUint32.deserialize
  pure (entry offset index)

abbrev pub read_triple : (ℕ → ℕ → ℤ → RelocationEntry) → Reader RelocationEntry
read_triple entry = do
  offset ← VarUint32.deserialize
  index ← VarUint32.deserialize
  addend ← VarInt32.deserialize
  pure (entry offset index addend)

unfoldable pub entry_of : ℕ → Reader RelocationEntry
entry_of entry_type =
    if entry_type == 0
    then read_pair function_index_leb
    else if entry_type == 1
    then read_pair table_index_sleb
    else if entry_type == 2
    then read_pair table_index_i32
    else if entry_type == 3
    then read_triple memory_address_leb
    else if entry_type == 4
    then read_triple memory_address_sleb
    else if entry_type == 5
    then read_triple memory_address_i32
    else if entry_type == 6
    then read_pair type_index_leb
    else if entry_type == 7
    then read_pair global_index_leb
    else fail (unknown_value_type (signed 8 entry_type))

unfoldable pub deserialize_relocation_entry : Reader RelocationEntry
unfolding entry_of
deserialize_relocation_entry = do entry_type ← VarUint7.deserialize; entry_of entry_type

abbrev pub write_pair : ℕ → ℕ → ℕ → Written
write_pair entry_type offset index =
    VarUint7.serialize entry_type ⊹ VarUint32.serialize offset ⊹ VarUint32.serialize index

abbrev pub write_triple : ℕ → ℕ → ℕ → ℤ → Written
write_triple entry_type offset index addend =
    VarUint7.serialize entry_type
    ⊹ VarUint32.serialize offset
    ⊹ VarUint32.serialize index
    ⊹ VarInt32.serialize addend

unfoldable pub serialize_relocation_entry : RelocationEntry → Written
serialize_relocation_entry (function_index_leb offset index) = write_pair 0 offset index
serialize_relocation_entry (table_index_sleb offset index) = write_pair 1 offset index
serialize_relocation_entry (table_index_i32 offset index) = write_pair 2 offset index
serialize_relocation_entry (memory_address_leb offset index addend) =
    write_triple 3 offset index addend
serialize_relocation_entry (memory_address_sleb offset index addend) =
    write_triple 4 offset index addend
serialize_relocation_entry (memory_address_i32 offset index addend) =
    write_triple 5 offset index addend
serialize_relocation_entry (type_index_leb offset index) = write_pair 6 offset index
serialize_relocation_entry (global_index_leb offset index) = write_pair 7 offset index

pub record RelocSection : Type 0 where
  pub name : Bytes
  pub section_id : ℕ
  pub relocation_section_name : Option Bytes
  pub entries : List RelocationEntry

unfoldable pub section_name_of : ℕ → Reader (Option Bytes)
section_name_of section_id =
    if section_id == 0 then (do s ← Text.deserialize; pure (some s)) else pure none

unfoldable pub deserialize_reloc_section : Bytes → Reader RelocSection
unfolding section_name_of
deserialize_reloc_section name = do
  section_id ← VarUint32.deserialize
  relocation_section_name ← section_name_of section_id
  entries ← CountedList.deserialize deserialize_relocation_entry
  pure (record {
    name = name;
    section_id = section_id;
    relocation_section_name = relocation_section_name;
    entries = entries;
  })

unfoldable pub serialize_section_name : Option Bytes → Written
serialize_section_name (some s) = Text.serialize s
serialize_section_name none = ok []

-- What follows the name.
unfoldable pub serialize_reloc_payload : RelocSection → Written
unfolding serialize_section_name
serialize_reloc_payload r =
    VarUint32.serialize r.section_id
    ⊹ serialize_section_name r.relocation_section_name
    ⊹ CountedList.serialize serialize_relocation_entry (length r.entries) r.entries

unfoldable pub serialize_reloc_section : RelocSection → Written
unfolding serialize_reloc_payload
serialize_reloc_section r = counted (Text.serialize r.name ⊹ serialize_reloc_payload r)
