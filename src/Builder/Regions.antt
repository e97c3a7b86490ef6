-- ===== src/Builder/Regions.antt =====
-- src/builder/module.rs: memories with their data, tables with their elements, and signatures, pushed
-- onto a scaffold. Their definitions are in src/builder/memory.rs and table.rs.
use parity_wasm.Base.{
  ℕ, ◌-◌, ◌%◌, ◌^◌, false, List, [], ◌∷◌, ◌++◌, map, Option, some, ok, length, Outcome, ◌>>=◌,
}
use parity_wasm.Elements.Error.{Error}
use parity_wasm.Elements.Codec.{Bytes}
use parity_wasm.Elements.Ops.{Instruction}
use parity_wasm.Elements.ImportEntry.{memory_type_new, table_type_new}
use parity_wasm.Elements.Segment.{ElementSegment, DataSegment}
use parity_wasm.Builder.Module.{ModuleScaffold, Signature, resolve_type_ref}

pub record MemoryDataDefinition : Type 0 where
  pub offset : List Instruction
  pub values : Bytes

pub record MemoryDefinition : Type 0 where
  pub min : ℕ
  pub max : Option ℕ
  pub regions : List MemoryDataDefinition

pub record TableEntryDefinition : Type 0 where
  pub offset : List Instruction
  pub values : List ℕ

pub record TableDefinition : Type 0 where
  pub min : ℕ
  pub max : Option ℕ
  pub elements : List TableEntryDefinition

abbrev pub data_segment_of : ℕ → MemoryDataDefinition → DataSegment
data_segment_of memory_index d = record {
  index = memory_index;
  offset = some d.offset;
  value = d.values;
  passive = false;
}

abbrev pub element_segment_of : ℕ → TableEntryDefinition → ElementSegment
element_segment_of table_index d = record {
  index = table_index;
  offset = some d.offset;
  members = d.values;
  passive = false;
}

unfoldable pub push_memory : MemoryDefinition → ModuleScaffold → ℕ × ModuleScaffold
push_memory memory m =
    let entries = m.memory ++ memory_type_new memory.min memory.max false ∷ [] in
    let memory_index = (length entries - 1) % 2 ^ 32 in
    (
      memory_index,
      record m {
        memory = entries;
        data_segments = m.data_segments ++ map (data_segment_of memory_index) memory.regions;
      },
    )

unfoldable pub push_table : TableDefinition → ModuleScaffold → ℕ × ModuleScaffold
push_table table m =
    let entries = m.table ++ table_type_new table.min table.max ∷ [] in
    let table_index = (length entries - 1) % 2 ^ 32 in
    (
      table_index,
      record m {
        table = entries;
        element = m.element ++ map (element_segment_of table_index) table.elements;
      },
    )

unfoldable pub push_signatures :
    List Signature → ModuleScaffold → Outcome Error (List ℕ × ModuleScaffold)
push_signatures [] m = ok ([], m)
push_signatures (binding ∷ signatures) m = do
  (type_ref, m') ← resolve_type_ref binding m
  (type_refs, m'') ← push_signatures signatures m'
  ok (type_ref ∷ type_refs, m'')
