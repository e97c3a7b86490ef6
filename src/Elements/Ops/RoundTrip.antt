-- ===== src/Elements/Ops/RoundTrip.antt =====
-- Every instruction is read back from what was written, but for those that the reader refuses.
pub mod Readable
pub mod Operands
pub mod Atomics
use parity_wasm.Base.{refl, arith}
use parity_wasm.Elements.Codec.{Restores, Restores-bind, Restores-map, read-Restores}
use parity_wasm.Elements.Types.RoundTrip.{BlockType-Restores_iff}
use parity_wasm.Elements.Primitives.ByteOrder.{LittleEndian}
use parity_wasm.Elements.Primitives.Uint8
use parity_wasm.Elements.Primitives.Uint32
use parity_wasm.Elements.Primitives.Uint64
use parity_wasm.Elements.Primitives.VarUint32
use parity_wasm.Elements.Primitives.VarInt32
use parity_wasm.Elements.Primitives.VarInt64
use parity_wasm.Elements.Ops.{
  Instruction, unreachable, nop, block, loop, if_op, else_op, end_op, br, br_if, br_table, return,
  call, call_indirect, drop, select, get_local, set_local, tee_local, get_global, set_global,
  i32_load, i64_load, f32_load, f64_load, i32_load8_s, i32_load8_u, i32_load16_s, i32_load16_u,
  i64_load8_s, i64_load8_u, i64_load16_s, i64_load16_u, i64_load32_s, i64_load32_u, i32_store,
  i64_store, f32_store, f64_store, i32_store8, i32_store16, i64_store8, i64_store16, i64_store32,
  current_memory, grow_memory, i32_const, i64_const, f32_const, f64_const, i32_eqz, i32_eq, i32_ne,
  i32_lt_s, i32_lt_u, i32_gt_s, i32_gt_u, i32_le_s, i32_le_u, i32_ge_s, i32_ge_u, i64_eqz, i64_eq,
  i64_ne, i64_lt_s, i64_lt_u, i64_gt_s, i64_gt_u, i64_le_s, i64_le_u, i64_ge_s, i64_ge_u, f32_eq,
  f32_ne, f32_lt, f32_gt, f32_le, f32_ge, f64_eq, f64_ne, f64_lt, f64_gt, f64_le, f64_ge, i32_clz,
  i32_ctz, i32_popcnt, i32_add, i32_sub, i32_mul, i32_div_s, i32_div_u, i32_rem_s, i32_rem_u,
  i32_and, i32_or, i32_xor, i32_shl, i32_shr_s, i32_shr_u, i32_rotl, i32_rotr, i64_clz, i64_ctz,
  i64_popcnt, i64_add, i64_sub, i64_mul, i64_div_s, i64_div_u, i64_rem_s, i64_rem_u, i64_and,
  i64_or, i64_xor, i64_shl, i64_shr_s, i64_shr_u, i64_rotl, i64_rotr, f32_abs, f32_neg, f32_ceil,
  f32_floor, f32_trunc, f32_nearest, f32_sqrt, f32_add, f32_sub, f32_mul, f32_div, f32_min, f32_max,
  f32_copysign, f64_abs, f64_neg, f64_ceil, f64_floor, f64_trunc, f64_nearest, f64_sqrt, f64_add,
  f64_sub, f64_mul, f64_div, f64_min, f64_max, f64_copysign, i32_wrap_i64, i32_trunc_s_f32,
  i32_trunc_u_f32, i32_trunc_s_f64, i32_trunc_u_f64, i64_extend_s_i32, i64_extend_u_i32,
  i64_trunc_s_f32, i64_trunc_u_f32, i64_trunc_s_f64, i64_trunc_u_f64, f32_convert_s_i32,
  f32_convert_u_i32, f32_convert_s_i64, f32_convert_u_i64, f32_demote_f64, f64_convert_s_i32,
  f64_convert_u_i32, f64_convert_s_i64, f64_convert_u_i64, f64_promote_f32, i32_reinterpret_f32,
  i64_reinterpret_f64, f32_reinterpret_i32, f64_reinterpret_i64, i32_extend8_s, i32_extend16_s,
  i64_extend8_s, i64_extend16_s, i64_extend32_s, atomic_wake, i32_atomic_wait, i64_atomic_wait,
  i32_atomic_load, i64_atomic_load, i32_atomic_load8u, i32_atomic_load16u, i64_atomic_load8u,
  i64_atomic_load16u, i64_atomic_load32u, i32_atomic_store, i64_atomic_store, i32_atomic_store8u,
  i32_atomic_store16u, i64_atomic_store8u, i64_atomic_store16u, i64_atomic_store32u,
  i32_atomic_rmw_add, i64_atomic_rmw_add, i32_atomic_rmw_add8u, i32_atomic_rmw_add16u,
  i64_atomic_rmw_add8u, i64_atomic_rmw_add16u, i64_atomic_rmw_add32u, i32_atomic_rmw_sub,
  i64_atomic_rmw_sub, i32_atomic_rmw_sub8u, i32_atomic_rmw_sub16u, i64_atomic_rmw_sub8u,
  i64_atomic_rmw_sub16u, i64_atomic_rmw_sub32u, i32_atomic_rmw_and, i64_atomic_rmw_and,
  i32_atomic_rmw_and8u, i32_atomic_rmw_and16u, i64_atomic_rmw_and8u, i64_atomic_rmw_and16u,
  i64_atomic_rmw_and32u, i32_atomic_rmw_or, i64_atomic_rmw_or, i32_atomic_rmw_or8u,
  i32_atomic_rmw_or16u, i64_atomic_rmw_or8u, i64_atomic_rmw_or16u, i64_atomic_rmw_or32u,
  i32_atomic_rmw_xor, i64_atomic_rmw_xor, i32_atomic_rmw_xor8u, i32_atomic_rmw_xor16u,
  i64_atomic_rmw_xor8u, i64_atomic_rmw_xor16u, i64_atomic_rmw_xor32u, i32_atomic_rmw_xchg,
  i64_atomic_rmw_xchg, i32_atomic_rmw_xchg8u, i32_atomic_rmw_xchg16u, i64_atomic_rmw_xchg8u,
  i64_atomic_rmw_xchg16u, i64_atomic_rmw_xchg32u, i32_atomic_rmw_cmpxchg, i64_atomic_rmw_cmpxchg,
  i32_atomic_rmw_cmpxchg8u, i32_atomic_rmw_cmpxchg16u, i64_atomic_rmw_cmpxchg8u,
  i64_atomic_rmw_cmpxchg16u, i64_atomic_rmw_cmpxchg32u, v128_const, v128_load, v128_store,
  i8x16_splat, i16x8_splat, i32x4_splat, i64x2_splat, f32x4_splat, f64x2_splat,
  i8x16_extract_lane_s, i8x16_extract_lane_u, i16x8_extract_lane_s, i16x8_extract_lane_u,
  i32x4_extract_lane, i64x2_extract_lane, f32x4_extract_lane, f64x2_extract_lane,
  i8x16_replace_lane, i16x8_replace_lane, i32x4_replace_lane, i64x2_replace_lane,
  f32x4_replace_lane, f64x2_replace_lane, v8x16_shuffle, i8x16_add, i16x8_add, i32x4_add, i64x2_add,
  i8x16_sub, i16x8_sub, i32x4_sub, i64x2_sub, i8x16_mul, i16x8_mul, i32x4_mul, i8x16_neg, i16x8_neg,
  i32x4_neg, i64x2_neg, i8x16_add_saturate_s, i8x16_add_saturate_u, i16x8_add_saturate_s,
  i16x8_add_saturate_u, i8x16_sub_saturate_s, i8x16_sub_saturate_u, i16x8_sub_saturate_s,
  i16x8_sub_saturate_u, i8x16_shl, i16x8_shl, i32x4_shl, i64x2_shl, i8x16_shr_s, i8x16_shr_u,
  i16x8_shr_s, i16x8_shr_u, i32x4_shr_s, i32x4_shr_u, i64x2_shr_s, i64x2_shr_u, v128_and, v128_or,
  v128_xor, v128_not, v128_bitselect, i8x16_any_true, i16x8_any_true, i32x4_any_true,
  i64x2_any_true, i8x16_all_true, i16x8_all_true, i32x4_all_true, i64x2_all_true, i8x16_eq,
  i16x8_eq, i32x4_eq, f32x4_eq, f64x2_eq, i8x16_ne, i16x8_ne, i32x4_ne, f32x4_ne, f64x2_ne,
  i8x16_lt_s, i8x16_lt_u, i16x8_lt_s, i16x8_lt_u, i32x4_lt_s, i32x4_lt_u, f32x4_lt, f64x2_lt,
  i8x16_le_s, i8x16_le_u, i16x8_le_s, i16x8_le_u, i32x4_le_s, i32x4_le_u, f32x4_le, f64x2_le,
  i8x16_gt_s, i8x16_gt_u, i16x8_gt_s, i16x8_gt_u, i32x4_gt_s, i32x4_gt_u, f32x4_gt, f64x2_gt,
  i8x16_ge_s, i8x16_ge_u, i16x8_ge_s, i16x8_ge_u, i32x4_ge_s, i32x4_ge_u, f32x4_ge, f64x2_ge,
  f32x4_neg, f64x2_neg, f32x4_abs, f64x2_abs, f32x4_min, f64x2_min, f32x4_max, f64x2_max, f32x4_add,
  f64x2_add, f32x4_sub, f64x2_sub, f32x4_div, f64x2_div, f32x4_mul, f64x2_mul, f32x4_sqrt,
  f64x2_sqrt, f32x4_convert_s_i32x4, f32x4_convert_u_i32x4, f64x2_convert_s_i64x2,
  f64x2_convert_u_i64x2, i32x4_trunc_s_f32x4_sat, i32x4_trunc_u_f32x4_sat, i64x2_trunc_s_f64x2_sat,
  i64x2_trunc_u_f64x2_sat, memory_init, memory_drop, memory_copy, memory_fill, table_init,
  table_drop, table_copy,
}
use parity_wasm.Elements.Ops.Read.Operands.{choose}
use parity_wasm.Elements.Ops.Read.Atomic.{atomic_of}
use parity_wasm.Elements.Ops.Read.Simd.{simd_of}
use parity_wasm.Elements.Ops.Read.Bulk.{bulk_of}
use parity_wasm.Elements.Ops.Read.{instruction_of, deserialize}
use parity_wasm.Elements.Ops.Write.{serialize}
use parity_wasm.Elements.Ops.RoundTrip.Readable.{IsReadable}
use parity_wasm.Elements.Ops.RoundTrip.Operands.{
  mem_arg, access-Restores, reserved-Restores, call-Restores, br_table-Restores, atomic-Restores,
  simd_with, simd-Restores, bulk-Restores,
}

module _ (le : LittleEndian) where
  -- An instruction that `IsReadable` allows is read back, whatever follows it: its numbers are of
  -- their widths, its block type is not that of V128, its reserved byte is 0, its sixteen bytes are
  -- sixteen, and it is not an `and` of atomic operations.
  pub Instruction-Restores :
      (i : Instruction) → IsReadable i → Restores (serialize le i) (deserialize le) i
  unfolding serialize deserialize instruction_of choose simd_of bulk_of atomic_of Uint8.serialize
  Instruction-Restores unreachable h = Restores-map _ (Uint8.Uint8-Restores 0x00) (λ rest. refl)
  Instruction-Restores nop h = Restores-map _ (Uint8.Uint8-Restores 0x01) (λ rest. refl)
  Instruction-Restores (block t) h =
      Restores-bind _ (Uint8.Uint8-Restores 0x02)
        (Restores-map _ ((BlockType-Restores_iff t).1 h) (λ rest. refl))
  Instruction-Restores (loop t) h =
      Restores-bind _ (Uint8.Uint8-Restores 0x03)
        (Restores-map _ ((BlockType-Restores_iff t).1 h) (λ rest. refl))
  Instruction-Restores (if_op t) h =
      Restores-bind _ (Uint8.Uint8-Restores 0x04)
        (Restores-map _ ((BlockType-Restores_iff t).1 h) (λ rest. refl))
  Instruction-Restores else_op h = Restores-map _ (Uint8.Uint8-Restores 0x05) (λ rest. refl)
  Instruction-Restores end_op h = Restores-map _ (Uint8.Uint8-Restores 0x0b) (λ rest. refl)
  Instruction-Restores (br index) h =
      Restores-bind _ (Uint8.Uint8-Restores 0x0c)
        (Restores-map _ (VarUint32.serialize_u32-Restores index h) (λ rest. refl))
  Instruction-Restores (br_if index) h =
      Restores-bind _ (Uint8.Uint8-Restores 0x0d)
        (Restores-map _ (VarUint32.serialize_u32-Restores index h) (λ rest. refl))
  Instruction-Restores (br_table t) h =
      Restores-bind _ (Uint8.Uint8-Restores 0x0e) (br_table-Restores t h)
  Instruction-Restores return h = Restores-map _ (Uint8.Uint8-Restores 0x0f) (λ rest. refl)
  Instruction-Restores (call index) h =
      Restores-bind _ (Uint8.Uint8-Restores 0x10)
        (Restores-map _ (VarUint32.serialize_u32-Restores index h) (λ rest. refl))
  Instruction-Restores (call_indirect index reserved) h =
      Restores-bind _ (Uint8.Uint8-Restores 0x11) (call-Restores index reserved h)
  Instruction-Restores drop h = Restores-map _ (Uint8.Uint8-Restores 0x1a) (λ rest. refl)
  Instruction-Restores select h = Restores-map _ (Uint8.Uint8-Restores 0x1b) (λ rest. refl)
  Instruction-Restores (get_local index) h =
      Restores-bind _ (Uint8.Uint8-Restores 0x20)
        (Restores-map _ (VarUint32.serialize_u32-Restores index h) (λ rest. refl))
  Instruction-Restores (set_local index) h =
      Restores-bind _ (Uint8.Uint8-Restores 0x21)
        (Restores-map _ (VarUint32.serialize_u32-Restores index h) (λ rest. refl))
  Instruction-Restores (tee_local index) h =
      Restores-bind _ (Uint8.Uint8-Restores 0x22)
        (Restores-map _ (VarUint32.serialize_u32-Restores index h) (λ rest. refl))
  Instruction-Restores (get_global index) h =
      Restores-bind _ (Uint8.Uint8-Restores 0x23)
        (Restores-map _ (VarUint32.serialize_u32-Restores index h) (λ rest. refl))
  Instruction-Restores (set_global index) h =
      Restores-bind _ (Uint8.Uint8-Restores 0x24)
        (Restores-map _ (VarUint32.serialize_u32-Restores index h) (λ rest. refl))
  Instruction-Restores (i32_load flags offset) h =
      Restores-bind _ (Uint8.Uint8-Restores 0x28) (access-Restores i32_load flags offset h)
  Instruction-Restores (i64_load flags offset) h =
      Restores-bind _ (Uint8.Uint8-Restores 0x29) (access-Restores i64_load flags offset h)
  Instruction-Restores (f32_load flags offset) h =
      Restores-bind _ (Uint8.Uint8-Restores 0x2a) (access-Restores f32_load flags offset h)
  Instruction-Restores (f64_load flags offset) h =
      Restores-bind _ (Uint8.Uint8-Restores 0x2b) (access-Restores f64_load flags offset h)
  Instruction-Restores (i32_load8_s flags offset) h =
      Restores-bind _ (Uint8.Uint8-Restores 0x2c) (access-Restores i32_load8_s flags offset h)
  Instruction-Restores (i32_load8_u flags offset) h =
      Restores-bind _ (Uint8.Uint8-Restores 0x2d) (access-Restores i32_load8_u flags offset h)
  Instruction-Restores (i32_load16_s flags offset) h =
      Restores-bind _ (Uint8.Uint8-Restores 0x2e) (access-Restores i32_load16_s flags offset h)
  Instruction-Restores (i32_load16_u flags offset) h =
      Restores-bind _ (Uint8.Uint8-Restores 0x2f) (access-Restores i32_load16_u flags offset h)
  Instruction-Restores (i64_load8_s flags offset) h =
      Restores-bind _ (Uint8.Uint8-Restores 0x30) (access-Restores i64_load8_s flags offset h)
  Instruction-Restores (i64_load8_u flags offset) h =
      Restores-bind _ (Uint8.Uint8-Restores 0x31) (access-Restores i64_load8_u flags offset h)
  Instruction-Restores (i64_load16_s flags offset) h =
      Restores-bind _ (Uint8.Uint8-Restores 0x32) (access-Restores i64_load16_s flags offset h)
  Instruction-Restores (i64_load16_u flags offset) h =
      Restores-bind _ (Uint8.Uint8-Restores 0x33) (access-Restores i64_load16_u flags offset h)
  Instruction-Restores (i64_load32_s flags offset) h =
      Restores-bind _ (Uint8.Uint8-Restores 0x34) (access-Restores i64_load32_s flags offset h)
  Instruction-Restores (i64_load32_u flags offset) h =
      Restores-bind _ (Uint8.Uint8-Restores 0x35) (access-Restores i64_load32_u flags offset h)
  Instruction-Restores (i32_store flags offset) h =
      Restores-bind _ (Uint8.Uint8-Restores 0x36) (access-Restores i32_store flags offset h)
  Instruction-Restores (i64_store flags offset) h =
      Restores-bind _ (Uint8.Uint8-Restores 0x37) (access-Restores i64_store flags offset h)
  Instruction-Restores (f32_store flags offset) h =
      Restores-bind _ (Uint8.Uint8-Restores 0x38) (access-Restores f32_store flags offset h)
  Instruction-Restores (f64_store flags offset) h =
      Restores-bind _ (Uint8.Uint8-Restores 0x39) (access-Restores f64_store flags offset h)
  Instruction-Restores (i32_store8 flags offset) h =
      Restores-bind _ (Uint8.Uint8-Restores 0x3a) (access-Restores i32_store8 flags offset h)
  Instruction-Restores (i32_store16 flags offset) h =
      Restores-bind _ (Uint8.Uint8-Restores 0x3b) (access-Restores i32_store16 flags offset h)
  Instruction-Restores (i64_store8 flags offset) h =
      Restores-bind _ (Uint8.Uint8-Restores 0x3c) (access-Restores i64_store8 flags offset h)
  Instruction-Restores (i64_store16 flags offset) h =
      Restores-bind _ (Uint8.Uint8-Restores 0x3d) (access-Restores i64_store16 flags offset h)
  Instruction-Restores (i64_store32 flags offset) h =
      Restores-bind _ (Uint8.Uint8-Restores 0x3e) (access-Restores i64_store32 flags offset h)
  Instruction-Restores (current_memory flag) h =
      Restores-bind _ (Uint8.Uint8-Restores 0x3f) (reserved-Restores current_memory flag h)
  Instruction-Restores (grow_memory flag) h =
      Restores-bind _ (Uint8.Uint8-Restores 0x40) (reserved-Restores grow_memory flag h)
  Instruction-Restores (i32_const n) h =
      Restores-bind _ (Uint8.Uint8-Restores 0x41)
        (Restores-map _ (VarInt32.serialize_i32-Restores n h) (λ rest. refl))
  Instruction-Restores (i64_const n) h =
      Restores-bind _ (Uint8.Uint8-Restores 0x42)
        (Restores-map _ (VarInt64.serialize_i64-Restores n h) (λ rest. refl))
  Instruction-Restores (f32_const n) h =
      Restores-bind _ (Uint8.Uint8-Restores 0x43)
        (Restores-map _ (Uint32.Uint32-Restores le n h) (λ rest. refl))
  Instruction-Restores (f64_const n) h =
      Restores-bind _ (Uint8.Uint8-Restores 0x44)
        (Restores-map _ (Uint64.Uint64-Restores le n h) (λ rest. refl))
  Instruction-Restores i32_eqz h = Restores-map _ (Uint8.Uint8-Restores 0x45) (λ rest. refl)
  Instruction-Restores i32_eq h = Restores-map _ (Uint8.Uint8-Restores 0x46) (λ rest. refl)
  Instruction-Restores i32_ne h = Restores-map _ (Uint8.Uint8-Restores 0x47) (λ rest. refl)
  Instruction-Restores i32_lt_s h = Restores-map _ (Uint8.Uint8-Restores 0x48) (λ rest. refl)
  Instruction-Restores i32_lt_u h = Restores-map _ (Uint8.Uint8-Restores 0x49) (λ rest. refl)
  Instruction-Restores i32_gt_s h = Restores-map _ (Uint8.Uint8-Restores 0x4a) (λ rest. refl)
  Instruction-Restores i32_gt_u h = Restores-map _ (Uint8.Uint8-Restores 0x4b) (λ rest. refl)
  Instruction-Restores i32_le_s h = Restores-map _ (Uint8.Uint8-Restores 0x4c) (λ rest. refl)
  Instruction-Restores i32_le_u h = Restores-map _ (Uint8.Uint8-Restores 0x4d) (λ rest. refl)
  Instruction-Restores i32_ge_s h = Restores-map _ (Uint8.Uint8-Restores 0x4e) (λ rest. refl)
  Instruction-Restores i32_ge_u h = Restores-map _ (Uint8.Uint8-Restores 0x4f) (λ rest. refl)
  Instruction-Restores i64_eqz h = Restores-map _ (Uint8.Uint8-Restores 0x50) (λ rest. refl)
  Instruction-Restores i64_eq h = Restores-map _ (Uint8.Uint8-Restores 0x51) (λ rest. refl)
  Instruction-Restores i64_ne h = Restores-map _ (Uint8.Uint8-Restores 0x52) (λ rest. refl)
  Instruction-Restores i64_lt_s h = Restores-map _ (Uint8.Uint8-Restores 0x53) (λ rest. refl)
  Instruction-Restores i64_lt_u h = Restores-map _ (Uint8.Uint8-Restores 0x54) (λ rest. refl)
  Instruction-Restores i64_gt_s h = Restores-map _ (Uint8.Uint8-Restores 0x55) (λ rest. refl)
  Instruction-Restores i64_gt_u h = Restores-map _ (Uint8.Uint8-Restores 0x56) (λ rest. refl)
  Instruction-Restores i64_le_s h = Restores-map _ (Uint8.Uint8-Restores 0x57) (λ rest. refl)
  Instruction-Restores i64_le_u h = Restores-map _ (Uint8.Uint8-Restores 0x58) (λ rest. refl)
  Instruction-Restores i64_ge_s h = Restores-map _ (Uint8.Uint8-Restores 0x59) (λ rest. refl)
  Instruction-Restores i64_ge_u h = Restores-map _ (Uint8.Uint8-Restores 0x5a) (λ rest. refl)
  Instruction-Restores f32_eq h = Restores-map _ (Uint8.Uint8-Restores 0x5b) (λ rest. refl)
  Instruction-Restores f32_ne h = Restores-map _ (Uint8.Uint8-Restores 0x5c) (λ rest. refl)
  Instruction-Restores f32_lt h = Restores-map _ (Uint8.Uint8-Restores 0x5d) (λ rest. refl)
  Instruction-Restores f32_gt h = Restores-map _ (Uint8.Uint8-Restores 0x5e) (λ rest. refl)
  Instruction-Restores f32_le h = Restores-map _ (Uint8.Uint8-Restores 0x5f) (λ rest. refl)
  Instruction-Restores f32_ge h = Restores-map _ (Uint8.Uint8-Restores 0x60) (λ rest. refl)
  Instruction-Restores f64_eq h = Restores-map _ (Uint8.Uint8-Restores 0x61) (λ rest. refl)
  Instruction-Restores f64_ne h = Restores-map _ (Uint8.Uint8-Restores 0x62) (λ rest. refl)
  Instruction-Restores f64_lt h = Restores-map _ (Uint8.Uint8-Restores 0x63) (λ rest. refl)
  Instruction-Restores f64_gt h = Restores-map _ (Uint8.Uint8-Restores 0x64) (λ rest. refl)
  Instruction-Restores f64_le h = Restores-map _ (Uint8.Uint8-Restores 0x65) (λ rest. refl)
  Instruction-Restores f64_ge h = Restores-map _ (Uint8.Uint8-Restores 0x66) (λ rest. refl)
  Instruction-Restores i32_clz h = Restores-map _ (Uint8.Uint8-Restores 0x67) (λ rest. refl)
  Instruction-Restores i32_ctz h = Restores-map _ (Uint8.Uint8-Restores 0x68) (λ rest. refl)
  Instruction-Restores i32_popcnt h = Restores-map _ (Uint8.Uint8-Restores 0x69) (λ rest. refl)
  Instruction-Restores i32_add h = Restores-map _ (Uint8.Uint8-Restores 0x6a) (λ rest. refl)
  Instruction-Restores i32_sub h = Restores-map _ (Uint8.Uint8-Restores 0x6b) (λ rest. refl)
  Instruction-Restores i32_mul h = Restores-map _ (Uint8.Uint8-Restores 0x6c) (λ rest. refl)
  Instruction-Restores i32_div_s h = Restores-map _ (Uint8.Uint8-Restores 0x6d) (λ rest. refl)
  Instruction-Restores i32_div_u h = Restores-map _ (Uint8.Uint8-Restores 0x6e) (λ rest. refl)
  Instruction-Restores i32_rem_s h = Restores-map _ (Uint8.Uint8-Restores 0x6f) (λ rest. refl)
  Instruction-Restores i32_rem_u h = Restores-map _ (Uint8.Uint8-Restores 0x70) (λ rest. refl)
  Instruction-Restores i32_and h = Restores-map _ (Uint8.Uint8-Restores 0x71) (λ rest. refl)
  Instruction-Restores i32_or h = Restores-map _ (Uint8.Uint8-Restores 0x72) (λ rest. refl)
  Instruction-Restores i32_xor h = Restores-map _ (Uint8.Uint8-Restores 0x73) (λ rest. refl)
  Instruction-Restores i32_shl h = Restores-map _ (Uint8.Uint8-Restores 0x74) (λ rest. refl)
  Instruction-Restores i32_shr_s h = Restores-map _ (Uint8.Uint8-Restores 0x75) (λ rest. refl)
  Instruction-Restores i32_shr_u h = Restores-map _ (Uint8.Uint8-Restores 0x76) (λ rest. refl)
  Instruction-Restores i32_rotl h = Restores-map _ (Uint8.Uint8-Restores 0x77) (λ rest. refl)
  Instruction-Restores i32_rotr h = Restores-map _ (Uint8.Uint8-Restores 0x78) (λ rest. refl)
  Instruction-Restores i64_clz h = Restores-map _ (Uint8.Uint8-Restores 0x79) (λ rest. refl)
  Instruction-Restores i64_ctz h = Restores-map _ (Uint8.Uint8-Restores 0x7a) (λ rest. refl)
  Instruction-Restores i64_popcnt h = Restores-map _ (Uint8.Uint8-Restores 0x7b) (λ rest. refl)
  Instruction-Restores i64_add h = Restores-map _ (Uint8.Uint8-Restores 0x7c) (λ rest. refl)
  Instruction-Restores i64_sub h = Restores-map _ (Uint8.Uint8-Restores 0x7d) (λ rest. refl)
  Instruction-Restores i64_mul h = Restores-map _ (Uint8.Uint8-Restores 0x7e) (λ rest. refl)
  Instruction-Restores i64_div_s h = Restores-map _ (Uint8.Uint8-Restores 0x7f) (λ rest. refl)
  Instruction-Restores i64_div_u h = Restores-map _ (Uint8.Uint8-Restores 0x80) (λ rest. refl)
  Instruction-Restores i64_rem_s h = Restores-map _ (Uint8.Uint8-Restores 0x81) (λ rest. refl)
  Instruction-Restores i64_rem_u h = Restores-map _ (Uint8.Uint8-Restores 0x82) (λ rest. refl)
  Instruction-Restores i64_and h = Restores-map _ (Uint8.Uint8-Restores 0x83) (λ rest. refl)
  Instruction-Restores i64_or h = Restores-map _ (Uint8.Uint8-Restores 0x84) (λ rest. refl)
  Instruction-Restores i64_xor h = Restores-map _ (Uint8.Uint8-Restores 0x85) (λ rest. refl)
  Instruction-Restores i64_shl h = Restores-map _ (Uint8.Uint8-Restores 0x86) (λ rest. refl)
  Instruction-Restores i64_shr_s h = Restores-map _ (Uint8.Uint8-Restores 0x87) (λ rest. refl)
  Instruction-Restores i64_shr_u h = Restores-map _ (Uint8.Uint8-Restores 0x88) (λ rest. refl)
  Instruction-Restores i64_rotl h = Restores-map _ (Uint8.Uint8-Restores 0x89) (λ rest. refl)
  Instruction-Restores i64_rotr h = Restores-map _ (Uint8.Uint8-Restores 0x8a) (λ rest. refl)
  Instruction-Restores f32_abs h = Restores-map _ (Uint8.Uint8-Restores 0x8b) (λ rest. refl)
  Instruction-Restores f32_neg h = Restores-map _ (Uint8.Uint8-Restores 0x8c) (λ rest. refl)
  Instruction-Restores f32_ceil h = Restores-map _ (Uint8.Uint8-Restores 0x8d) (λ rest. refl)
  Instruction-Restores f32_floor h = Restores-map _ (Uint8.Uint8-Restores 0x8e) (λ rest. refl)
  Instruction-Restores f32_trunc h = Restores-map _ (Uint8.Uint8-Restores 0x8f) (λ rest. refl)
  Instruction-Restores f32_nearest h = Restores-map _ (Uint8.Uint8-Restores 0x90) (λ rest. refl)
  Instruction-Restores f32_sqrt h = Restores-map _ (Uint8.Uint8-Restores 0x91) (λ rest. refl)
  Instruction-Restores f32_add h = Restores-map _ (Uint8.Uint8-Restores 0x92) (λ rest. refl)
  Instruction-Restores f32_sub h = Restores-map _ (Uint8.Uint8-Restores 0x93) (λ rest. refl)
  Instruction-Restores f32_mul h = Restores-map _ (Uint8.Uint8-Restores 0x94) (λ rest. refl)
  Instruction-Restores f32_div h = Restores-map _ (Uint8.Uint8-Restores 0x95) (λ rest. refl)
  Instruction-Restores f32_min h = Restores-map _ (Uint8.Uint8-Restores 0x96) (λ rest. refl)
  Instruction-Restores f32_max h = Restores-map _ (Uint8.Uint8-Restores 0x97) (λ rest. refl)
  Instruction-Restores f32_copysign h = Restores-map _ (Uint8.Uint8-Restores 0x98) (λ rest. refl)
  Instruction-Restores f64_abs h = Restores-map _ (Uint8.Uint8-Restores 0x99) (λ rest. refl)
  Instruction-Restores f64_neg h = Restores-map _ (Uint8.Uint8-Restores 0x9a) (λ rest. refl)
  Instruction-Restores f64_ceil h = Restores-map _ (Uint8.Uint8-Restores 0x9b) (λ rest. refl)
  Instruction-Restores f64_floor h = Restores-map _ (Uint8.Uint8-Restores 0x9c) (λ rest. refl)
  Instruction-Restores f64_trunc h = Restores-map _ (Uint8.Uint8-Restores 0x9d) (λ rest. refl)
  Instruction-Restores f64_nearest h = Restores-map _ (Uint8.Uint8-Restores 0x9e) (λ rest. refl)
  Instruction-Restores f64_sqrt h = Restores-map _ (Uint8.Uint8-Restores 0x9f) (λ rest. refl)
  Instruction-Restores f64_add h = Restores-map _ (Uint8.Uint8-Restores 0xa0) (λ rest. refl)
  Instruction-Restores f64_sub h = Restores-map _ (Uint8.Uint8-Restores 0xa1) (λ rest. refl)
  Instruction-Restores f64_mul h = Restores-map _ (Uint8.Uint8-Restores 0xa2) (λ rest. refl)
  Instruction-Restores f64_div h = Restores-map _ (Uint8.Uint8-Restores 0xa3) (λ rest. refl)
  Instruction-Restores f64_min h = Restores-map _ (Uint8.Uint8-Restores 0xa4) (λ rest. refl)
  Instruction-Restores f64_max h = Restores-map _ (Uint8.Uint8-Restores 0xa5) (λ rest. refl)
  Instruction-Restores f64_copysign h = Restores-map _ (Uint8.Uint8-Restores 0xa6) (λ rest. refl)
  Instruction-Restores i32_wrap_i64 h = Restores-map _ (Uint8.Uint8-Restores 0xa7) (λ rest. refl)
  Instruction-Restores i32_trunc_s_f32 h = Restores-map _ (Uint8.Uint8-Restores 0xa8) (λ rest. refl)
  Instruction-Restores i32_trunc_u_f32 h = Restores-map _ (Uint8.Uint8-Restores 0xa9) (λ rest. refl)
  Instruction-Restores i32_trunc_s_f64 h = Restores-map _ (Uint8.Uint8-Restores 0xaa) (λ rest. refl)
  Instruction-Restores i32_trunc_u_f64 h = Restores-map _ (Uint8.Uint8-Restores 0xab) (λ rest. refl)
  Instruction-Restores i64_extend_s_i32 h =
      Restores-map _ (Uint8.Uint8-Restores 0xac) (λ rest. refl)
  Instruction-Restores i64_extend_u_i32 h =
      Restores-map _ (Uint8.Uint8-Restores 0xad) (λ rest. refl)
  Instruction-Restores i64_trunc_s_f32 h = Restores-map _ (Uint8.Uint8-Restores 0xae) (λ rest. refl)
  Instruction-Restores i64_trunc_u_f32 h = Restores-map _ (Uint8.Uint8-Restores 0xaf) (λ rest. refl)
  Instruction-Restores i64_trunc_s_f64 h = Restores-map _ (Uint8.Uint8-Restores 0xb0) (λ rest. refl)
  Instruction-Restores i64_trunc_u_f64 h = Restores-map _ (Uint8.Uint8-Restores 0xb1) (λ rest. refl)
  Instruction-Restores f32_convert_s_i32 h =
      Restores-map _ (Uint8.Uint8-Restores 0xb2) (λ rest. refl)
  Instruction-Restores f32_convert_u_i32 h =
      Restores-map _ (Uint8.Uint8-Restores 0xb3) (λ rest. refl)
  Instruction-Restores f32_convert_s_i64 h =
      Restores-map _ (Uint8.Uint8-Restores 0xb4) (λ rest. refl)
  Instruction-Restores f32_convert_u_i64 h =
      Restores-map _ (Uint8.Uint8-Restores 0xb5) (λ rest. refl)
  Instruction-Restores f32_demote_f64 h = Restores-map _ (Uint8.Uint8-Restores 0xb6) (λ rest. refl)
  Instruction-Restores f64_convert_s_i32 h =
      Restores-map _ (Uint8.Uint8-Restores 0xb7) (λ rest. refl)
  Instruction-Restores f64_convert_u_i32 h =
      Restores-map _ (Uint8.Uint8-Restores 0xb8) (λ rest. refl)
  Instruction-Restores f64_convert_s_i64 h =
      Restores-map _ (Uint8.Uint8-Restores 0xb9) (λ rest. refl)
  Instruction-Restores f64_convert_u_i64 h =
      Restores-map _ (Uint8.Uint8-Restores 0xba) (λ rest. refl)
  Instruction-Restores f64_promote_f32 h = Restores-map _ (Uint8.Uint8-Restores 0xbb) (λ rest. refl)
  Instruction-Restores i32_reinterpret_f32 h =
      Restores-map _ (Uint8.Uint8-Restores 0xbc) (λ rest. refl)
  Instruction-Restores i64_reinterpret_f64 h =
      Restores-map _ (Uint8.Uint8-Restores 0xbd) (λ rest. refl)
  Instruction-Restores f32_reinterpret_i32 h =
      Restores-map _ (Uint8.Uint8-Restores 0xbe) (λ rest. refl)
  Instruction-Restores f64_reinterpret_i64 h =
      Restores-map _ (Uint8.Uint8-Restores 0xbf) (λ rest. refl)
  Instruction-Restores i32_extend8_s h = Restores-map _ (Uint8.Uint8-Restores 0xc0) (λ rest. refl)
  Instruction-Restores i32_extend16_s h = Restores-map _ (Uint8.Uint8-Restores 0xc1) (λ rest. refl)
  Instruction-Restores i64_extend8_s h = Restores-map _ (Uint8.Uint8-Restores 0xc2) (λ rest. refl)
  Instruction-Restores i64_extend16_s h = Restores-map _ (Uint8.Uint8-Restores 0xc3) (λ rest. refl)
  Instruction-Restores i64_extend32_s h = Restores-map _ (Uint8.Uint8-Restores 0xc4) (λ rest. refl)
  Instruction-Restores (atomic_wake mem) h = atomic-Restores le 0x00 mem h (λ rest. refl)
  Instruction-Restores (i32_atomic_wait mem) h = atomic-Restores le 0x01 mem h (λ rest. refl)
  Instruction-Restores (i64_atomic_wait mem) h = atomic-Restores le 0x02 mem h (λ rest. refl)
  Instruction-Restores (i32_atomic_load mem) h = atomic-Restores le 0x10 mem h (λ rest. refl)
  Instruction-Restores (i64_atomic_load mem) h = atomic-Restores le 0x11 mem h (λ rest. refl)
  Instruction-Restores (i32_atomic_load8u mem) h = atomic-Restores le 0x12 mem h (λ rest. refl)
  Instruction-Restores (i32_atomic_load16u mem) h = atomic-Restores le 0x13 mem h (λ rest. refl)
  Instruction-Restores (i64_atomic_load8u mem) h = atomic-Restores le 0x14 mem h (λ rest. refl)
  Instruction-Restores (i64_atomic_load16u mem) h = atomic-Restores le 0x15 mem h (λ rest. refl)
  Instruction-Restores (i64_atomic_load32u mem) h = atomic-Restores le 0x16 mem h (λ rest. refl)
  Instruction-Restores (i32_atomic_store mem) h = atomic-Restores le 0x17 mem h (λ rest. refl)
  Instruction-Restores (i64_atomic_store mem) h = atomic-Restores le 0x18 mem h (λ rest. refl)
  Instruction-Restores (i32_atomic_store8u mem) h = atomic-Restores le 0x19 mem h (λ rest. refl)
  Instruction-Restores (i32_atomic_store16u mem) h = atomic-Restores le 0x1a mem h (λ rest. refl)
  Instruction-Restores (i64_atomic_store8u mem) h = atomic-Restores le 0x1b mem h (λ rest. refl)
  Instruction-Restores (i64_atomic_store16u mem) h = atomic-Restores le 0x1c mem h (λ rest. refl)
  Instruction-Restores (i64_atomic_store32u mem) h = atomic-Restores le 0x1d mem h (λ rest. refl)
  Instruction-Restores (i32_atomic_rmw_add mem) h = atomic-Restores le 0x1e mem h (λ rest. refl)
  Instruction-Restores (i64_atomic_rmw_add mem) h = atomic-Restores le 0x1f mem h (λ rest. refl)
  Instruction-Restores (i32_atomic_rmw_add8u mem) h = atomic-Restores le 0x20 mem h (λ rest. refl)
  Instruction-Restores (i32_atomic_rmw_add16u mem) h = atomic-Restores le 0x21 mem h (λ rest. refl)
  Instruction-Restores (i64_atomic_rmw_add8u mem) h = atomic-Restores le 0x22 mem h (λ rest. refl)
  Instruction-Restores (i64_atomic_rmw_add16u mem) h = atomic-Restores le 0x23 mem h (λ rest. refl)
  Instruction-Restores (i64_atomic_rmw_add32u mem) h = atomic-Restores le 0x24 mem h (λ rest. refl)
  Instruction-Restores (i32_atomic_rmw_sub mem) h = atomic-Restores le 0x25 mem h (λ rest. refl)
  Instruction-Restores (i64_atomic_rmw_sub mem) h = atomic-Restores le 0x26 mem h (λ rest. refl)
  Instruction-Restores (i32_atomic_rmw_sub8u mem) h = atomic-Restores le 0x27 mem h (λ rest. refl)
  Instruction-Restores (i32_atomic_rmw_sub16u mem) h = atomic-Restores le 0x28 mem h (λ rest. refl)
  Instruction-Restores (i64_atomic_rmw_sub8u mem) h = atomic-Restores le 0x29 mem h (λ rest. refl)
  Instruction-Restores (i64_atomic_rmw_sub16u mem) h = atomic-Restores le 0x2a mem h (λ rest. refl)
  Instruction-Restores (i64_atomic_rmw_sub32u mem) h = atomic-Restores le 0x2b mem h (λ rest. refl)
  Instruction-Restores (i32_atomic_rmw_and mem) h = absurd h
  Instruction-Restores (i64_atomic_rmw_and mem) h = absurd h
  Instruction-Restores (i32_atomic_rmw_and8u mem) h = absurd h
  Instruction-Restores (i32_atomic_rmw_and16u mem) h = absurd h
  Instruction-Restores (i64_atomic_rmw_and8u mem) h = absurd h
  Instruction-Restores (i64_atomic_rmw_and16u mem) h = absurd h
  Instruction-Restores (i64_atomic_rmw_and32u mem) h = absurd h
  Instruction-Restores (i32_atomic_rmw_or mem) h = atomic-Restores le 0x33 mem h (λ rest. refl)
  Instruction-Restores (i64_atomic_rmw_or mem) h = atomic-Restores le 0x34 mem h (λ rest. refl)
  Instruction-Restores (i32_atomic_rmw_or8u mem) h = atomic-Restores le 0x35 mem h (λ rest. refl)
  Instruction-Restores (i32_atomic_rmw_or16u mem) h = atomic-Restores le 0x36 mem h (λ rest. refl)
  Instruction-Restores (i64_atomic_rmw_or8u mem) h = atomic-Restores le 0x37 mem h (λ rest. refl)
  Instruction-Restores (i64_atomic_rmw_or16u mem) h = atomic-Restores le 0x38 mem h (λ rest. refl)
  Instruction-Restores (i64_atomic_rmw_or32u mem) h = atomic-Restores le 0x39 mem h (λ rest. refl)
  Instruction-Restores (i32_atomic_rmw_xor mem) h = atomic-Restores le 0x3a mem h (λ rest. refl)
  Instruction-Restores (i64_atomic_rmw_xor mem) h = atomic-Restores le 0x3b mem h (λ rest. refl)
  Instruction-Restores (i32_atomic_rmw_xor8u mem) h = atomic-Restores le 0x3c mem h (λ rest. refl)
  Instruction-Restores (i32_atomic_rmw_xor16u mem) h = atomic-Restores le 0x3d mem h (λ rest. refl)
  Instruction-Restores (i64_atomic_rmw_xor8u mem) h = atomic-Restores le 0x3e mem h (λ rest. refl)
  Instruction-Restores (i64_atomic_rmw_xor16u mem) h = atomic-Restores le 0x3f mem h (λ rest. refl)
  Instruction-Restores (i64_atomic_rmw_xor32u mem) h = atomic-Restores le 0x40 mem h (λ rest. refl)
  Instruction-Restores (i32_atomic_rmw_xchg mem) h = atomic-Restores le 0x41 mem h (λ rest. refl)
  Instruction-Restores (i64_atomic_rmw_xchg mem) h = atomic-Restores le 0x42 mem h (λ rest. refl)
  Instruction-Restores (i32_atomic_rmw_xchg8u mem) h = atomic-Restores le 0x43 mem h (λ rest. refl)
  Instruction-Restores (i32_atomic_rmw_xchg16u mem) h = atomic-Restores le 0x44 mem h (λ rest. refl)
  Instruction-Restores (i64_atomic_rmw_xchg8u mem) h = atomic-Restores le 0x45 mem h (λ rest. refl)
  Instruction-Restores (i64_atomic_rmw_xchg16u mem) h = atomic-Restores le 0x46 mem h (λ rest. refl)
  Instruction-Restores (i64_atomic_rmw_xchg32u mem) h = atomic-Restores le 0x47 mem h (λ rest. refl)
  Instruction-Restores (i32_atomic_rmw_cmpxchg mem) h = atomic-Restores le 0x48 mem h (λ rest. refl)
  Instruction-Restores (i64_atomic_rmw_cmpxchg mem) h = atomic-Restores le 0x49 mem h (λ rest. refl)
  Instruction-Restores (i32_atomic_rmw_cmpxchg8u mem) h =
      atomic-Restores le 0x4a mem h (λ rest. refl)
  Instruction-Restores (i32_atomic_rmw_cmpxchg16u mem) h =
      atomic-Restores le 0x4b mem h (λ rest. refl)
  Instruction-Restores (i64_atomic_rmw_cmpxchg8u mem) h =
      atomic-Restores le 0x4c mem h (λ rest. refl)
  Instruction-Restores (i64_atomic_rmw_cmpxchg16u mem) h =
      atomic-Restores le 0x4d mem h (λ rest. refl)
  Instruction-Restores (i64_atomic_rmw_cmpxchg32u mem) h =
      atomic-Restores le 0x4e mem h (λ rest. refl)
  Instruction-Restores (v128_const buf) h =
      simd_with le 0x02 (omega arith) (Restores-map _ (read-Restores buf 16 h) (λ rest. refl))
  Instruction-Restores (v128_load mem) h =
      simd_with le 0x00 (omega arith) (Restores-map _ (mem_arg mem h) (λ rest. refl))
  Instruction-Restores (v128_store mem) h =
      simd_with le 0x01 (omega arith) (Restores-map _ (mem_arg mem h) (λ rest. refl))
  Instruction-Restores i8x16_splat h = simd-Restores le 0x04 (omega arith) (λ rest. refl)
  Instruction-Restores i16x8_splat h = simd-Restores le 0x08 (omega arith) (λ rest. refl)
  Instruction-Restores i32x4_splat h = simd-Restores le 0x0c (omega arith) (λ rest. refl)
  Instruction-Restores i64x2_splat h = simd-Restores le 0x0f (omega arith) (λ rest. refl)
  Instruction-Restores f32x4_splat h = simd-Restores le 0x12 (omega arith) (λ rest. refl)
  Instruction-Restores f64x2_splat h = simd-Restores le 0x15 (omega arith) (λ rest. refl)
  Instruction-Restores (i8x16_extract_lane_s lane) h =
      simd_with le 0x05 (omega arith) (Restores-map _ (Uint8.Uint8-Restores lane) (λ rest. refl))
  Instruction-Restores (i8x16_extract_lane_u lane) h =
      simd_with le 0x06 (omega arith) (Restores-map _ (Uint8.Uint8-Restores lane) (λ rest. refl))
  Instruction-Restores (i16x8_extract_lane_s lane) h =
      simd_with le 0x09 (omega arith) (Restores-map _ (Uint8.Uint8-Restores lane) (λ rest. refl))
  Instruction-Restores (i16x8_extract_lane_u lane) h =
      simd_with le 0x0a (omega arith) (Restores-map _ (Uint8.Uint8-Restores lane) (λ rest. refl))
  Instruction-Restores (i32x4_extract_lane lane) h =
      simd_with le 0x0d (omega arith) (Restores-map _ (Uint8.Uint8-Restores lane) (λ rest. refl))
  Instruction-Restores (i64x2_extract_lane lane) h =
      simd_with le 0x10 (omega arith) (Restores-map _ (Uint8.Uint8-Restores lane) (λ rest. refl))
  Instruction-Restores (f32x4_extract_lane lane) h =
      simd_with le 0x13 (omega arith) (Restores-map _ (Uint8.Uint8-Restores lane) (λ rest. refl))
  Instruction-Restores (f64x2_extract_lane lane) h =
      simd_with le 0x16 (omega arith) (Restores-map _ (Uint8.Uint8-Restores lane) (λ rest. refl))
  Instruction-Restores (i8x16_replace_lane lane) h =
      simd_with le 0x07 (omega arith) (Restores-map _ (Uint8.Uint8-Restores lane) (λ rest. refl))
  Instruction-Restores (i16x8_replace_lane lane) h =
      simd_with le 0x0b (omega arith) (Restores-map _ (Uint8.Uint8-Restores lane) (λ rest. refl))
  Instruction-Restores (i32x4_replace_lane lane) h =
      simd_with le 0x0e (omega arith) (Restores-map _ (Uint8.Uint8-Restores lane) (λ rest. refl))
  Instruction-Restores (i64x2_replace_lane lane) h =
      simd_with le 0x11 (omega arith) (Restores-map _ (Uint8.Uint8-Restores lane) (λ rest. refl))
  Instruction-Restores (f32x4_replace_lane lane) h =
      simd_with le 0x14 (omega arith) (Restores-map _ (Uint8.Uint8-Restores lane) (λ rest. refl))
  Instruction-Restores (f64x2_replace_lane lane) h =
      simd_with le 0x17 (omega arith) (Restores-map _ (Uint8.Uint8-Restores lane) (λ rest. refl))
  Instruction-Restores (v8x16_shuffle buf) h =
      simd_with le 0x03 (omega arith) (Restores-map _ (read-Restores buf 16 h) (λ rest. refl))
  Instruction-Restores i8x16_add h = simd-Restores le 0x57 (omega arith) (λ rest. refl)
  Instruction-Restores i16x8_add h = simd-Restores le 0x68 (omega arith) (λ rest. refl)
  Instruction-Restores i32x4_add h = simd-Restores le 0x79 (omega arith) (λ rest. refl)
  Instruction-Restores i64x2_add h = simd-Restores le 0x8a (omega arith) (λ rest. refl)
  Instruction-Restores i8x16_sub h = simd-Restores le 0x5a (omega arith) (λ rest. refl)
  Instruction-Restores i16x8_sub h = simd-Restores le 0x6b (omega arith) (λ rest. refl)
  Instruction-Restores i32x4_sub h = simd-Restores le 0x7c (omega arith) (λ rest. refl)
  Instruction-Restores i64x2_sub h = simd-Restores le 0x8d (omega arith) (λ rest. refl)
  Instruction-Restores i8x16_mul h = simd-Restores le 0x5d (omega arith) (λ rest. refl)
  Instruction-Restores i16x8_mul h = simd-Restores le 0x6e (omega arith) (λ rest. refl)
  Instruction-Restores i32x4_mul h = simd-Restores le 0x7f (omega arith) (λ rest. refl)
  Instruction-Restores i8x16_neg h = simd-Restores le 0x51 (omega arith) (λ rest. refl)
  Instruction-Restores i16x8_neg h = simd-Restores le 0x62 (omega arith) (λ rest. refl)
  Instruction-Restores i32x4_neg h = simd-Restores le 0x73 (omega arith) (λ rest. refl)
  Instruction-Restores i64x2_neg h = simd-Restores le 0x84 (omega arith) (λ rest. refl)
  Instruction-Restores i8x16_add_saturate_s h = simd-Restores le 0x58 (omega arith) (λ rest. refl)
  Instruction-Restores i8x16_add_saturate_u h = simd-Restores le 0x59 (omega arith) (λ rest. refl)
  Instruction-Restores i16x8_add_saturate_s h = simd-Restores le 0x69 (omega arith) (λ rest. refl)
  Instruction-Restores i16x8_add_saturate_u h = simd-Restores le 0x6a (omega arith) (λ rest. refl)
  Instruction-Restores i8x16_sub_saturate_s h = simd-Restores le 0x5b (omega arith) (λ rest. refl)
  Instruction-Restores i8x16_sub_saturate_u h = simd-Restores le 0x5c (omega arith) (λ rest. refl)
  Instruction-Restores i16x8_sub_saturate_s h = simd-Restores le 0x6c (omega arith) (λ rest. refl)
  Instruction-Restores i16x8_sub_saturate_u h = simd-Restores le 0x6d (omega arith) (λ rest. refl)
  Instruction-Restores i8x16_shl h = simd-Restores le 0x54 (omega arith) (λ rest. refl)
  Instruction-Restores i16x8_shl h = simd-Restores le 0x65 (omega arith) (λ rest. refl)
  Instruction-Restores i32x4_shl h = simd-Restores le 0x76 (omega arith) (λ rest. refl)
  Instruction-Restores i64x2_shl h = simd-Restores le 0x87 (omega arith) (λ rest. refl)
  Instruction-Restores i8x16_shr_s h = simd-Restores le 0x55 (omega arith) (λ rest. refl)
  Instruction-Restores i8x16_shr_u h = simd-Restores le 0x56 (omega arith) (λ rest. refl)
  Instruction-Restores i16x8_shr_s h = simd-Restores le 0x66 (omega arith) (λ rest. refl)
  Instruction-Restores i16x8_shr_u h = simd-Restores le 0x67 (omega arith) (λ rest. refl)
  Instruction-Restores i32x4_shr_s h = simd-Restores le 0x77 (omega arith) (λ rest. refl)
  Instruction-Restores i32x4_shr_u h = simd-Restores le 0x78 (omega arith) (λ rest. refl)
  Instruction-Restores i64x2_shr_s h = simd-Restores le 0x88 (omega arith) (λ rest. refl)
  Instruction-Restores i64x2_shr_u h = simd-Restores le 0x89 (omega arith) (λ rest. refl)
  Instruction-Restores v128_and h = simd-Restores le 0x4d (omega arith) (λ rest. refl)
  Instruction-Restores v128_or h = simd-Restores le 0x4e (omega arith) (λ rest. refl)
  Instruction-Restores v128_xor h = simd-Restores le 0x4f (omega arith) (λ rest. refl)
  Instruction-Restores v128_not h = simd-Restores le 0x4c (omega arith) (λ rest. refl)
  Instruction-Restores v128_bitselect h = simd-Restores le 0x50 (omega arith) (λ rest. refl)
  Instruction-Restores i8x16_any_true h = simd-Restores le 0x52 (omega arith) (λ rest. refl)
  Instruction-Restores i16x8_any_true h = simd-Restores le 0x63 (omega arith) (λ rest. refl)
  Instruction-Restores i32x4_any_true h = simd-Restores le 0x74 (omega arith) (λ rest. refl)
  Instruction-Restores i64x2_any_true h = simd-Restores le 0x85 (omega arith) (λ rest. refl)
  Instruction-Restores i8x16_all_true h = simd-Restores le 0x53 (omega arith) (λ rest. refl)
  Instruction-Restores i16x8_all_true h = simd-Restores le 0x64 (omega arith) (λ rest. refl)
  Instruction-Restores i32x4_all_true h = simd-Restores le 0x75 (omega arith) (λ rest. refl)
  Instruction-Restores i64x2_all_true h = simd-Restores le 0x86 (omega arith) (λ rest. refl)
  Instruction-Restores i8x16_eq h = simd-Restores le 0x18 (omega arith) (λ rest. refl)
  Instruction-Restores i16x8_eq h = simd-Restores le 0x22 (omega arith) (λ rest. refl)
  Instruction-Restores i32x4_eq h = simd-Restores le 0x2c (omega arith) (λ rest. refl)
  Instruction-Restores f32x4_eq h = simd-Restores le 0x40 (omega arith) (λ rest. refl)
  Instruction-Restores f64x2_eq h = simd-Restores le 0x46 (omega arith) (λ rest. refl)
  Instruction-Restores i8x16_ne h = simd-Restores le 0x19 (omega arith) (λ rest. refl)
  Instruction-Restores i16x8_ne h = simd-Restores le 0x23 (omega arith) (λ rest. refl)
  Instruction-Restores i32x4_ne h = simd-Restores le 0x2d (omega arith) (λ rest. refl)
  Instruction-Restores f32x4_ne h = simd-Restores le 0x41 (omega arith) (λ rest. refl)
  Instruction-Restores f64x2_ne h = simd-Restores le 0x47 (omega arith) (λ rest. refl)
  Instruction-Restores i8x16_lt_s h = simd-Restores le 0x1a (omega arith) (λ rest. refl)
  Instruction-Restores i8x16_lt_u h = simd-Restores le 0x1b (omega arith) (λ rest. refl)
  Instruction-Restores i16x8_lt_s h = simd-Restores le 0x24 (omega arith) (λ rest. refl)
  Instruction-Restores i16x8_lt_u h = simd-Restores le 0x25 (omega arith) (λ rest. refl)
  Instruction-Restores i32x4_lt_s h = simd-Restores le 0x2e (omega arith) (λ rest. refl)
  Instruction-Restores i32x4_lt_u h = simd-Restores le 0x2f (omega arith) (λ rest. refl)
  Instruction-Restores f32x4_lt h = simd-Restores le 0x42 (omega arith) (λ rest. refl)
  Instruction-Restores f64x2_lt h = simd-Restores le 0x48 (omega arith) (λ rest. refl)
  Instruction-Restores i8x16_le_s h = simd-Restores le 0x1e (omega arith) (λ rest. refl)
  Instruction-Restores i8x16_le_u h = simd-Restores le 0x1f (omega arith) (λ rest. refl)
  Instruction-Restores i16x8_le_s h = simd-Restores le 0x28 (omega arith) (λ rest. refl)
  Instruction-Restores i16x8_le_u h = simd-Restores le 0x29 (omega arith) (λ rest. refl)
  Instruction-Restores i32x4_le_s h = simd-Restores le 0x32 (omega arith) (λ rest. refl)
  Instruction-Restores i32x4_le_u h = simd-Restores le 0x33 (omega arith) (λ rest. refl)
  Instruction-Restores f32x4_le h = simd-Restores le 0x44 (omega arith) (λ rest. refl)
  Instruction-Restores f64x2_le h = simd-Restores le 0x4a (omega arith) (λ rest. refl)
  Instruction-Restores i8x16_gt_s h = simd-Restores le 0x1c (omega arith) (λ rest. refl)
  Instruction-Restores i8x16_gt_u h = simd-Restores le 0x1d (omega arith) (λ rest. refl)
  Instruction-Restores i16x8_gt_s h = simd-Restores le 0x26 (omega arith) (λ rest. refl)
  Instruction-Restores i16x8_gt_u h = simd-Restores le 0x27 (omega arith) (λ rest. refl)
  Instruction-Restores i32x4_gt_s h = simd-Restores le 0x30 (omega arith) (λ rest. refl)
  Instruction-Restores i32x4_gt_u h = simd-Restores le 0x31 (omega arith) (λ rest. refl)
  Instruction-Restores f32x4_gt h = simd-Restores le 0x43 (omega arith) (λ rest. refl)
  Instruction-Restores f64x2_gt h = simd-Restores le 0x49 (omega arith) (λ rest. refl)
  Instruction-Restores i8x16_ge_s h = simd-Restores le 0x20 (omega arith) (λ rest. refl)
  Instruction-Restores i8x16_ge_u h = simd-Restores le 0x21 (omega arith) (λ rest. refl)
  Instruction-Restores i16x8_ge_s h = simd-Restores le 0x2a (omega arith) (λ rest. refl)
  Instruction-Restores i16x8_ge_u h = simd-Restores le 0x2b (omega arith) (λ rest. refl)
  Instruction-Restores i32x4_ge_s h = simd-Restores le 0x34 (omega arith) (λ rest. refl)
  Instruction-Restores i32x4_ge_u h = simd-Restores le 0x35 (omega arith) (λ rest. refl)
  Instruction-Restores f32x4_ge h = simd-Restores le 0x45 (omega arith) (λ rest. refl)
  Instruction-Restores f64x2_ge h = simd-Restores le 0x4b (omega arith) (λ rest. refl)
  Instruction-Restores f32x4_neg h = simd-Restores le 0x96 (omega arith) (λ rest. refl)
  Instruction-Restores f64x2_neg h = simd-Restores le 0xa1 (omega arith) (λ rest. refl)
  Instruction-Restores f32x4_abs h = simd-Restores le 0x95 (omega arith) (λ rest. refl)
  Instruction-Restores f64x2_abs h = simd-Restores le 0xa0 (omega arith) (λ rest. refl)
  Instruction-Restores f32x4_min h = simd-Restores le 0x9e (omega arith) (λ rest. refl)
  Instruction-Restores f64x2_min h = simd-Restores le 0xa9 (omega arith) (λ rest. refl)
  Instruction-Restores f32x4_max h = simd-Restores le 0x9f (omega arith) (λ rest. refl)
  Instruction-Restores f64x2_max h = simd-Restores le 0xaa (omega arith) (λ rest. refl)
  Instruction-Restores f32x4_add h = simd-Restores le 0x9a (omega arith) (λ rest. refl)
  Instruction-Restores f64x2_add h = simd-Restores le 0xa5 (omega arith) (λ rest. refl)
  Instruction-Restores f32x4_sub h = simd-Restores le 0x9b (omega arith) (λ rest. refl)
  Instruction-Restores f64x2_sub h = simd-Restores le 0xa6 (omega arith) (λ rest. refl)
  Instruction-Restores f32x4_div h = simd-Restores le 0x9d (omega arith) (λ rest. refl)
  Instruction-Restores f64x2_div h = simd-Restores le 0xa8 (omega arith) (λ rest. refl)
  Instruction-Restores f32x4_mul h = simd-Restores le 0x9c (omega arith) (λ rest. refl)
  Instruction-Restores f64x2_mul h = simd-Restores le 0xa7 (omega arith) (λ rest. refl)
  Instruction-Restores f32x4_sqrt h = simd-Restores le 0x97 (omega arith) (λ rest. refl)
  Instruction-Restores f64x2_sqrt h = simd-Restores le 0xa2 (omega arith) (λ rest. refl)
  Instruction-Restores f32x4_convert_s_i32x4 h = simd-Restores le 0xaf (omega arith) (λ rest. refl)
  Instruction-Restores f32x4_convert_u_i32x4 h = simd-Restores le 0xb0 (omega arith) (λ rest. refl)
  Instruction-Restores f64x2_convert_s_i64x2 h = simd-Restores le 0xb1 (omega arith) (λ rest. refl)
  Instruction-Restores f64x2_convert_u_i64x2 h = simd-Restores le 0xb2 (omega arith) (λ rest. refl)
  Instruction-Restores i32x4_trunc_s_f32x4_sat h =
      simd-Restores le 0xab (omega arith) (λ rest. refl)
  Instruction-Restores i32x4_trunc_u_f32x4_sat h =
      simd-Restores le 0xac (omega arith) (λ rest. refl)
  Instruction-Restores i64x2_trunc_s_f64x2_sat h =
      simd-Restores le 0xad (omega arith) (λ rest. refl)
  Instruction-Restores i64x2_trunc_u_f64x2_sat h =
      simd-Restores le 0xae (omega arith) (λ rest. refl)
  Instruction-Restores (memory_init seg) h = bulk-Restores le 0x08 (
      Restores-bind _ (Uint8.Uint8-Restores 0)
        (Restores-map _ (VarUint32.serialize_u32-Restores seg h) (λ rest. refl)))
  Instruction-Restores (memory_drop seg) h =
      bulk-Restores le 0x09 (Restores-map _ (VarUint32.serialize_u32-Restores seg h) (λ rest. refl))
  Instruction-Restores memory_copy h =
      bulk-Restores le 0x0a (Restores-map _ (Uint8.Uint8-Restores 0) (λ rest. refl))
  Instruction-Restores memory_fill h =
      bulk-Restores le 0x0b (Restores-map _ (Uint8.Uint8-Restores 0) (λ rest. refl))
  Instruction-Restores (table_init seg) h = bulk-Restores le 0x0c (
      Restores-bind _ (Uint8.Uint8-Restores 0)
        (Restores-map _ (VarUint32.serialize_u32-Restores seg h) (λ rest. refl)))
  Instruction-Restores (table_drop seg) h =
      bulk-Restores le 0x0d (Restores-map _ (VarUint32.serialize_u32-Restores seg h) (λ rest. refl))
  Instruction-Restores table_copy h =
      bulk-Restores le 0x0e (Restores-map _ (Uint8.Uint8-Restores 0) (λ rest. refl))
