-- ===== src/Elements/Segment/Total.antt =====
-- The readers of segments and globals end on every input.
use parity_wasm.Base.{ℕ, arith}
use parity_wasm.Elements.Total.{IsTotal}
use parity_wasm.Elements.Buffered.{buffered_read-IsTotal}
use parity_wasm.Elements.Primitives.ByteOrder.{LittleEndian}
use parity_wasm.Elements.Primitives.Total.{reader_rules}
use parity_wasm.Elements.ImportEntry.Total.{global_type-IsTotal}
use parity_wasm.Elements.Ops.Blocks.Total.{init_expr-IsTotal}
use parity_wasm.Elements.Segment.{
  index_of, offset_of, head_of, deserialize_head, deserialize_element_segment,
  deserialize_data_segment, deserialize_global_entry,
}

module _ (le : LittleEndian) where
  head-IsTotal : IsTotal (deserialize_head le)
  unfolding deserialize_head head_of index_of offset_of
  head-IsTotal = search (reader_rules, init_expr-IsTotal) depth 20

  pub element_segment-IsTotal : IsTotal (deserialize_element_segment le)
  unfolding deserialize_element_segment
  element_segment-IsTotal = search (reader_rules, head-IsTotal) depth 20

  pub data_segment-IsTotal : IsTotal (deserialize_data_segment le)
  unfolding deserialize_data_segment
  data_segment-IsTotal =
      search
        (reader_rules, head-IsTotal, λ (len : ℕ). buffered_read-IsTotal 65536 len (omega arith))
        depth 20

  pub global_entry-IsTotal : IsTotal (deserialize_global_entry le)
  unfolding deserialize_global_entry
  global_entry-IsTotal = search (reader_rules, global_type-IsTotal, init_expr-IsTotal) depth 20
