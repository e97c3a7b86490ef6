-- ===== src/Elements/Types.antt =====
-- src/elements/types.rs: the types of values, blocks, functions and table elements.
pub mod RoundTrip
pub mod Total
use parity_wasm.Base.{
  ℕ, List, Option, none, some, ◌==◌, if◌then◌else◌, not, length, [], true, false,
}
use parity_wasm.Base.Int.{ℤ, pos, negsuc, eq_ℤ}
use parity_wasm.Elements.Error.{
  unknown_value_type, unknown_table_element_type, unknown_function_form, other,
}
use parity_wasm.Elements.Codec.{Reader, ◌>>=◌, pure, fail, Written, ◌⊹◌}
use parity_wasm.Elements.Primitives.VarInt7
use parity_wasm.Elements.Primitives.VarUint7
use parity_wasm.Elements.Primitives.VarUint1
use parity_wasm.Elements.Primitives.VarUint32
use parity_wasm.Elements.Primitives.CountedList

pub data ValueType : Type 0 where
  i32 i64 f32 f64 v128 : ValueType

value_type_of : ℤ → Reader ValueType
value_type_of val =
    if eq_ℤ val (negsuc 0)
    then pure i32
    else if eq_ℤ val (negsuc 1)
    then pure i64
    else if eq_ℤ val (negsuc 2)
    then pure f32
    else if eq_ℤ val (negsuc 3)
    then pure f64
    else if eq_ℤ val (negsuc 4)
    then pure v128
    else fail (unknown_value_type val)

unfoldable pub deserialize_value_type : Reader ValueType
unfolding value_type_of
deserialize_value_type = do val ← VarInt7.deserialize; value_type_of val

value_type_code : ValueType → ℤ
value_type_code i32 = negsuc 0
value_type_code i64 = negsuc 1
value_type_code f32 = negsuc 2
value_type_code f64 = negsuc 3
value_type_code v128 = negsuc 4

unfoldable pub serialize_value_type : ValueType → Written
unfolding value_type_code
serialize_value_type t = VarInt7.serialize (value_type_code t)

pub data BlockType : Type 0 where
  value : ValueType → BlockType
  no_result : BlockType

-- `0x7b` is the `i8` 123.
block_type_of : ℤ → Reader BlockType
block_type_of val =
    if eq_ℤ val (negsuc 0)
    then pure (value i32)
    else if eq_ℤ val (negsuc 1)
    then pure (value i64)
    else if eq_ℤ val (negsuc 2)
    then pure (value f32)
    else if eq_ℤ val (negsuc 3)
    then pure (value f64)
    else if eq_ℤ val (pos 0x7b)
    then pure (value v128)
    else if eq_ℤ val (negsuc 0x3f)
    then pure no_result
    else fail (unknown_value_type val)

unfoldable pub deserialize_block_type : Reader BlockType
unfolding block_type_of
deserialize_block_type = do val ← VarInt7.deserialize; block_type_of val

block_type_code : BlockType → ℤ
block_type_code no_result = negsuc 0x3f
block_type_code (value i32) = negsuc 0
block_type_code (value i64) = negsuc 1
block_type_code (value f32) = negsuc 2
block_type_code (value f64) = negsuc 3
block_type_code (value v128) = pos 0x7b

unfoldable pub serialize_block_type : BlockType → Written
unfolding block_type_code
serialize_block_type t = VarInt7.serialize (block_type_code t)

pub record FunctionType : Type 0 where
  pub form : ℕ
  pub params : List ValueType
  pub return_type : Option ValueType

unfoldable pub function_type_new : List ValueType → Option ValueType → FunctionType
function_type_new params return_type = record {
  form = 0x60;
  params = params;
  return_type = return_type;
}

return_type_of : ℕ → Reader (Option ValueType)
return_type_of return_types =
    if return_types == 1
    then (do t ← deserialize_value_type; pure (some t))
    else (if return_types == 0
        then pure none
        else fail (other "Return types length should be 0 or 1"))

deserialize_return_type : Reader (Option ValueType)
unfolding return_type_of
deserialize_return_type = do return_types ← VarUint32.deserialize; return_type_of return_types

unfoldable pub deserialize_function_type : Reader FunctionType
unfolding deserialize_return_type
deserialize_function_type = do
  form ← VarUint7.deserialize
  if not (form == 0x60) then fail (unknown_function_form form) else (do
    params ← CountedList.deserialize deserialize_value_type
    return_type ← deserialize_return_type
    pure (record { form = form; params = params; return_type = return_type }))

serialize_return_type : Option ValueType → Written
serialize_return_type (some t) = VarUint1.serialize true ⊹ serialize_value_type t
serialize_return_type none = VarUint1.serialize false

unfoldable pub serialize_function_type : FunctionType → Written
unfolding serialize_return_type
serialize_function_type f =
    VarUint7.serialize f.form
    ⊹ CountedList.serialize serialize_value_type (length f.params) f.params
    ⊹ serialize_return_type f.return_type

-- `Type`, whose name antt keeps for its own types.
pub data TypeEntry : Type 0 where
  function : FunctionType → TypeEntry

unfoldable pub deserialize_type : Reader TypeEntry
deserialize_type = do f ← deserialize_function_type; pure (function f)

unfoldable pub serialize_type : TypeEntry → Written
serialize_type (function f) = serialize_function_type f

pub data TableElementType : Type 0 where
  any_func : TableElementType

unfoldable pub deserialize_table_element_type : Reader TableElementType
deserialize_table_element_type = do
  val ← VarInt7.deserialize
  if eq_ℤ val (negsuc 0x0f) then pure any_func else fail (unknown_table_element_type val)

unfoldable pub serialize_table_element_type : TableElementType → Written
serialize_table_element_type any_func = VarInt7.serialize (negsuc 0x0f)
