-- ===== src/Elements/ExportEntry/Total.antt =====
-- The readers of exports end on every input.
use parity_wasm.Elements.Total.{IsTotal}
use parity_wasm.Elements.Primitives.Total.{reader_rules}
use parity_wasm.Elements.ExportEntry.{internal_of, deserialize_internal, deserialize_export_entry}

internal-IsTotal : IsTotal deserialize_internal
unfolding deserialize_internal internal_of
internal-IsTotal = search reader_rules depth 20

pub export_entry-IsTotal : IsTotal deserialize_export_entry
unfolding deserialize_export_entry
export_entry-IsTotal = search (reader_rules, internal-IsTotal) depth 14
