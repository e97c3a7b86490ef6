-- ===== src/Elements/ImportEntry/Total.antt =====
-- The readers of imports end on every input.
use parity_wasm.Elements.Total.{IsTotal}
use parity_wasm.Elements.Primitives.Total.{reader_rules}
use parity_wasm.Elements.Types.Total.{value_type-IsTotal, table_element_type-IsTotal}
use parity_wasm.Elements.ImportEntry.{
  deserialize_global_type, maximum_of, limits_of, deserialize_limits, deserialize_table_type,
  deserialize_memory_type, external_of, deserialize_external, deserialize_import_entry,
}

pub global_type-IsTotal : IsTotal deserialize_global_type
unfolding deserialize_global_type
global_type-IsTotal = search (reader_rules, value_type-IsTotal) depth 14

limits-IsTotal : IsTotal deserialize_limits
unfolding deserialize_limits limits_of maximum_of
limits-IsTotal = search reader_rules depth 14

pub table_type-IsTotal : IsTotal deserialize_table_type
unfolding deserialize_table_type
table_type-IsTotal = search (reader_rules, table_element_type-IsTotal, limits-IsTotal) depth 14

pub memory_type-IsTotal : IsTotal deserialize_memory_type
unfolding deserialize_memory_type
memory_type-IsTotal = search (reader_rules, limits-IsTotal) depth 14

external-IsTotal : IsTotal deserialize_external
unfolding deserialize_external external_of
external-IsTotal =
    search (reader_rules, global_type-IsTotal, table_type-IsTotal, memory_type-IsTotal) depth 20

pub import_entry-IsTotal : IsTotal deserialize_import_entry
unfolding deserialize_import_entry
import_entry-IsTotal = search (reader_rules, external-IsTotal) depth 14
