-- ===== src/Elements/Ops/Read/Memory.antt =====
-- src/elements/ops.rs: the arms of `Instruction::deserialize` for memory and constants.
use parity_wasm.Base.{List, [], ◌∷◌}
use parity_wasm.Elements.Codec.{◌>>=◌, pure}
use parity_wasm.Elements.Primitives.ByteOrder.{LittleEndian}
use parity_wasm.Elements.Primitives.Uint32
use parity_wasm.Elements.Primitives.Uint64
use parity_wasm.Elements.Primitives.VarInt32
use parity_wasm.Elements.Primitives.VarInt64
use parity_wasm.Elements.Ops.{
  i32_load, i64_load, f32_load, f64_load, i32_load8_s, i32_load8_u, i32_load16_s, i32_load16_u,
  i64_load8_s, i64_load8_u, i64_load16_s, i64_load16_u, i64_load32_s, i64_load32_u, i32_store,
  i64_store, f32_store, f64_store, i32_store8, i32_store16, i64_store8, i64_store16, i64_store32,
  current_memory, grow_memory, i32_const, i64_const, f32_const, f64_const,
}
use parity_wasm.Elements.Ops.Read.Operands.{Arm, read_access, read_memory_reference}

module _ (le : LittleEndian) where
  abbrev pub memory_and_constants : List Arm
  memory_and_constants =
      (0x28, read_access i32_load)
      ∷ (0x29, read_access i64_load)
      ∷ (0x2a, read_access f32_load)
      ∷ (0x2b, read_access f64_load)
      ∷ (0x2c, read_access i32_load8_s)
      ∷ (0x2d, read_access i32_load8_u)
      ∷ (0x2e, read_access i32_load16_s)
      ∷ (0x2f, read_access i32_load16_u)
      ∷ (0x30, read_access i64_load8_s)
      ∷ (0x31, read_access i64_load8_u)
      ∷ (0x32, read_access i64_load16_s)
      ∷ (0x33, read_access i64_load16_u)
      ∷ (0x34, read_access i64_load32_s)
      ∷ (0x35, read_access i64_load32_u)
      ∷ (0x36, read_access i32_store)
      ∷ (0x37, read_access i64_store)
      ∷ (0x38, read_access f32_store)
      ∷ (0x39, read_access f64_store)
      ∷ (0x3a, read_access i32_store8)
      ∷ (0x3b, read_access i32_store16)
      ∷ (0x3c, read_access i64_store8)
      ∷ (0x3d, read_access i64_store16)
      ∷ (0x3e, read_access i64_store32)
      ∷ (0x3f, read_memory_reference current_memory)
      ∷ (0x40, read_memory_reference grow_memory)
      ∷ (0x41, (do n ← VarInt32.deserialize; pure (i32_const n)))
      ∷ (0x42, (do n ← VarInt64.deserialize; pure (i64_const n)))
      ∷ (0x43, (do n ← Uint32.deserialize le; pure (f32_const n)))
      ∷ (0x44, (do n ← Uint64.deserialize le; pure (f64_const n)))
      ∷ []
