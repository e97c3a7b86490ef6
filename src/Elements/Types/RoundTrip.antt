-- ===== src/Elements/Types/RoundTrip.antt =====
-- Types are read back from what was written, but for one type of blocks.
use parity_wasm.Base.{
  ◌<◌, ◌^◌, ◌≡◌, ◌≢◌, refl, List, [], ◌∷◌, Option, none, some, ok, length, All, arith, subst, ◌++◌,
  ◌↔◌,
}
use parity_wasm.Base.Int.{ℤ, negsuc, IsSigned, signed}
use parity_wasm.Elements.Codec.{Restores, Restores-bind, Restores-map}
use parity_wasm.Elements.Primitives.VarInt7
use parity_wasm.Elements.Primitives.VarUint7
use parity_wasm.Elements.Primitives.VarUint1
use parity_wasm.Elements.Primitives.VarUint32
use parity_wasm.Elements.Primitives.CountedList
use parity_wasm.Elements.Types.{
  ValueType, i32, i64, f32, f64, v128, value_type_of, value_type_code, deserialize_value_type,
  serialize_value_type, BlockType, value, no_result, block_type_of, block_type_code,
  deserialize_block_type, serialize_block_type, FunctionType, deserialize_return_type,
  return_type_of, deserialize_function_type, serialize_return_type, serialize_function_type,
  TableElementType, any_func, deserialize_table_element_type, serialize_table_element_type,
}

seven_bits : (v : ℤ) → IsSigned 7 v → Restores (VarInt7.serialize v) VarInt7.deserialize v
seven_bits v h = (VarInt7.VarInt7-Restores_iff v (omega arith)).1 h

pub ValueType-Restores :
    (t : ValueType) → Restores (serialize_value_type t) deserialize_value_type t
unfolding serialize_value_type deserialize_value_type value_type_of value_type_code
ValueType-Restores i32 = Restores-map _ (seven_bits (negsuc 0) (omega arith)) (λ rest. refl)
ValueType-Restores i64 = Restores-map _ (seven_bits (negsuc 1) (omega arith)) (λ rest. refl)
ValueType-Restores f32 = Restores-map _ (seven_bits (negsuc 2) (omega arith)) (λ rest. refl)
ValueType-Restores f64 = Restores-map _ (seven_bits (negsuc 3) (omega arith)) (λ rest. refl)
ValueType-Restores v128 = Restores-map _ (seven_bits (negsuc 4) (omega arith)) (λ rest. refl)

-- The block type of a V128 is written as 0x7b, which is read as -5 and refused.
block_type_v128 :
    (r : Restores (serialize_block_type (value v128)) deserialize_block_type (value v128)) → ⊥
unfolding serialize_block_type block_type_code deserialize_block_type block_type_of
    VarInt7.serialize VarInt7.deserialize signed
block_type_v128 r =
    let same : r.bytes ≡ 0x7b ∷ [] = cc r.written in
    let reads : deserialize_block_type (0x7b ∷ []) ≡ ok (value v128, []) =
      subst (λ bs. deserialize_block_type (bs ++ []) ≡ ok (value v128, [])) same (r.reads []) in
    cc reads

block_type-Restores :
    (t : BlockType) → t ≢ value v128 → Restores (serialize_block_type t) deserialize_block_type t
unfolding serialize_block_type block_type_code deserialize_block_type block_type_of
block_type-Restores no_result h =
    Restores-map _ (seven_bits (negsuc 0x3f) (omega arith)) (λ rest. refl)
block_type-Restores (value i32) h =
    Restores-map _ (seven_bits (negsuc 0) (omega arith)) (λ rest. refl)
block_type-Restores (value i64) h =
    Restores-map _ (seven_bits (negsuc 1) (omega arith)) (λ rest. refl)
block_type-Restores (value f32) h =
    Restores-map _ (seven_bits (negsuc 2) (omega arith)) (λ rest. refl)
block_type-Restores (value f64) h =
    Restores-map _ (seven_bits (negsuc 3) (omega arith)) (λ rest. refl)
block_type-Restores (value v128) h = absurd (h refl)

-- A block type that was written is read back, whatever follows it, exactly if it is not that of V128.
pub BlockType-Restores_iff :
    (t : BlockType) → Restores (serialize_block_type t) deserialize_block_type t ↔ (t ≢ value v128)
BlockType-Restores_iff t = (
  (λ r e.
      block_type_v128
        (subst (λ u. Restores (serialize_block_type u) deserialize_block_type u) e r)),
  block_type-Restores t,
)

pub All-Restores :
    (ts : List ValueType) → All (λ t. Restores (serialize_value_type t) deserialize_value_type t) ts
All-Restores [] = tt
All-Restores (t ∷ ts) = (ValueType-Restores t, All-Restores ts)

return_type-Restores :
    (t : Option ValueType) → Restores (serialize_return_type t) deserialize_return_type t
unfolding serialize_return_type deserialize_return_type return_type_of VarUint1.serialize
return_type-Restores none =
    Restores-map {a = 0} _ (VarUint32.one_byte-Restores 0 (omega arith)) (λ rest. refl)
return_type-Restores (some t) =
    Restores-bind {a = 1} _ (VarUint32.one_byte-Restores 1 (omega arith))
      (Restores-map _ (ValueType-Restores t) (λ rest. refl))

-- A function type of the form 0x60, with fewer than 2 ^ 32 parameters, is read back, whatever follows
-- it.
pub FunctionType-Restores :
    (f : FunctionType)
    → f.form ≡ 0x60
    → length f.params < 2 ^ 32
    → Restores (serialize_function_type f) deserialize_function_type f
unfolding serialize_function_type deserialize_function_type
FunctionType-Restores f h k = Restores-bind _ (VarUint7.VarUint7-Restores f.form) (
    rw h (
      Restores-bind _ (CountedList.CountedList-Restores _ _ f.params k (All-Restores f.params))
        (Restores-map _ (return_type-Restores f.return_type) (λ rest. refl))))

pub TableElementType-Restores :
    (t : TableElementType)
    → Restores (serialize_table_element_type t) deserialize_table_element_type t
unfolding serialize_table_element_type deserialize_table_element_type
TableElementType-Restores any_func =
    Restores-map _ (seven_bits (negsuc 0x0f) (omega arith)) (λ rest. refl)
