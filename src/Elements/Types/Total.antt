-- ===== src/Elements/Types/Total.antt =====
-- The readers of types end on every input.
use parity_wasm.Elements.Total.{IsTotal}
use parity_wasm.Elements.Primitives.Total.{reader_rules}
use parity_wasm.Elements.Types.{
  value_type_of, deserialize_value_type, block_type_of, deserialize_block_type, return_type_of,
  deserialize_return_type, deserialize_function_type, deserialize_type,
  deserialize_table_element_type,
}

pub value_type-IsTotal : IsTotal deserialize_value_type
unfolding deserialize_value_type value_type_of
value_type-IsTotal = search reader_rules depth 14

pub block_type-IsTotal : IsTotal deserialize_block_type
unfolding deserialize_block_type block_type_of
block_type-IsTotal = search reader_rules depth 14

return_type-IsTotal : IsTotal deserialize_return_type
unfolding deserialize_return_type return_type_of
return_type-IsTotal = search (reader_rules, value_type-IsTotal) depth 14

function_type-IsTotal : IsTotal deserialize_function_type
unfolding deserialize_function_type
function_type-IsTotal = search (reader_rules, value_type-IsTotal, return_type-IsTotal) depth 14

pub type-IsTotal : IsTotal deserialize_type
unfolding deserialize_type
type-IsTotal = search (reader_rules, function_type-IsTotal) depth 14

pub table_element_type-IsTotal : IsTotal deserialize_table_element_type
unfolding deserialize_table_element_type
table_element_type-IsTotal = search reader_rules depth 14
