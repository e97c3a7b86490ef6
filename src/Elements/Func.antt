-- ===== src/Elements/Func.antt =====
-- src/elements/func.rs: function signatures, locals and bodies.
pub mod RoundTrip
pub mod Total
pub mod Locals
use parity_wasm.Base.{ℕ, ◌+◌, ◌^◌, ltb, if◌then◌else◌, List, [], ◌∷◌, Option, none, some, length}
use parity_wasm.Elements.Error.{too_many_locals}
use parity_wasm.Elements.Codec.{Reader, ◌>>=◌, pure, ok_or, Written, ◌⊹◌}
use parity_wasm.Elements.Types.{ValueType, deserialize_value_type, serialize_value_type}
use parity_wasm.Elements.Primitives.ByteOrder.{LittleEndian}
use parity_wasm.Elements.Primitives.VarUint32
use parity_wasm.Elements.Primitives.CountedList
use parity_wasm.Elements.Primitives.CountedWriter.{counted}
use parity_wasm.Elements.Section.SectionReader.{in_section}
use parity_wasm.Elements.Ops.{Instruction}
use parity_wasm.Elements.Ops.Blocks as Blocks
use parity_wasm.Elements.Ops.Blocks.{deserialize_instructions}

pub record Func : Type 0 where
  pub type_ref : ℕ

unfoldable pub serialize_func : Func → Written
serialize_func f = VarUint32.serialize f.type_ref

unfoldable pub deserialize_func : Reader Func
deserialize_func = do n ← VarUint32.deserialize; pure (record { type_ref = n })

pub record Local : Type 0 where
  pub count : ℕ
  pub value_type : ValueType

unfoldable pub deserialize_local : Reader Local
deserialize_local = do
  count ← VarUint32.deserialize
  value_type ← deserialize_value_type
  pure (record { count = count; value_type = value_type })

unfoldable pub serialize_local : Local → Written
serialize_local l = VarUint32.serialize l.count ⊹ serialize_value_type l.value_type

pub record FuncBody : Type 0 where
  pub locals : List Local
  pub instructions : List Instruction

-- `try_fold(0u32, |acc, &Local { count, .. }| acc.checked_add(count))`
unfoldable pub add_counts : ℕ → List Local → Option ℕ
add_counts acc [] = some acc
add_counts acc (l ∷ ls) =
    let rest = add_counts (acc + l.count) ls in if ltb (acc + l.count) (2 ^ 32) then rest else none

module _ (le : LittleEndian) where
  unfoldable pub deserialize_body : Reader FuncBody
  deserialize_body = do
    locals ← CountedList.deserialize deserialize_local
    total ← ok_or (add_counts 0 locals) too_many_locals
    instructions ← deserialize_instructions le
    pure (record { locals = locals; instructions = instructions })

  unfoldable pub deserialize_func_body : Reader FuncBody
  unfolding deserialize_body
  deserialize_func_body = in_section deserialize_body

  unfoldable pub serialize_body : FuncBody → Written
  serialize_body f =
      CountedList.serialize serialize_local (length f.locals) f.locals
      ⊹ Blocks.serialize le f.instructions

  unfoldable pub serialize_func_body : FuncBody → Written
  unfolding serialize_body
  serialize_func_body f = counted (serialize_body f)
