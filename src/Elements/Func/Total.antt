-- ===== src/Elements/Func/Total.antt =====
-- The readers of functions end on every input.
use parity_wasm.Elements.Total.{IsTotal}
use parity_wasm.Elements.Primitives.ByteOrder.{LittleEndian}
use parity_wasm.Elements.Primitives.Total.{reader_rules}
use parity_wasm.Elements.Types.Total.{value_type-IsTotal}
use parity_wasm.Elements.Ops.Blocks.Total.{instructions-IsTotal}
use parity_wasm.Elements.Section.SectionReader.{in_section-IsTotal}
use parity_wasm.Elements.Func.{
  deserialize_func, deserialize_local, deserialize_body, deserialize_func_body,
}

pub func-IsTotal : IsTotal deserialize_func
unfolding deserialize_func
func-IsTotal = search reader_rules depth 14

local-IsTotal : IsTotal deserialize_local
unfolding deserialize_local
local-IsTotal = search (reader_rules, value_type-IsTotal) depth 14

module _ (le : LittleEndian) where
  body-IsTotal : IsTotal (deserialize_body le)
  unfolding deserialize_body
  body-IsTotal = search (reader_rules, local-IsTotal, instructions-IsTotal) depth 20

  pub func_body-IsTotal : IsTotal (deserialize_func_body le)
  unfolding deserialize_func_body
  func_body-IsTotal = in_section-IsTotal _ body-IsTotal
