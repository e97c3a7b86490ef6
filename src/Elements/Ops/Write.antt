-- ===== src/Elements/Ops/Write.antt =====
-- src/elements/ops.rs: an instruction is written. `op`, `op_with`, `atomic_op`, `simd_op` and `bulk_op`
-- are the macros `op!`, `atomic!`, `simd!` and `bulk!`.
use parity_wasm.Base.{ℕ, [], ◌∷◌, ok, length}
use parity_wasm.Elements.Codec.{Written, ◌⊹◌}
use parity_wasm.Elements.Types.{serialize_block_type}
use parity_wasm.Elements.Primitives.ByteOrder.{LittleEndian}
use parity_wasm.Elements.Primitives.Uint8
use parity_wasm.Elements.Primitives.Uint32
use parity_wasm.Elements.Primitives.Uint64
use parity_wasm.Elements.Primitives.VarUint32
use parity_wasm.Elements.Primitives.VarInt32
use parity_wasm.Elements.Primitives.VarInt64
use parity_wasm.Elements.Primitives.CountedList
use parity_wasm.Elements.Ops.{
  MemArg, BrTableData, Instruction, unreachable, nop, block, loop, if_op, else_op, end_op, br,
  br_if, br_table, return, call, call_indirect, drop, select, get_local, set_local, tee_local,
  get_global, set_global, i32_load, i64_load, f32_load, f64_load, i32_load8_s, i32_load8_u,
  i32_load16_s, i32_load16_u, i64_load8_s, i64_load8_u, i64_load16_s, i64_load16_u, i64_load32_s,
  i64_load32_u, i32_store, i64_store, f32_store, f64_store, i32_store8, i32_store16, i64_store8,
  i64_store16, i64_store32, current_memory, grow_memory, i32_const, i64_const, f32_const, f64_const,
  i32_eqz, i32_eq, i32_ne, i32_lt_s, i32_lt_u, i32_gt_s, i32_gt_u, i32_le_s, i32_le_u, i32_ge_s,
  i32_ge_u, i64_eqz, i64_eq, i64_ne, i64_lt_s, i64_lt_u, i64_gt_s, i64_gt_u, i64_le_s, i64_le_u,
  i64_ge_s, i64_ge_u, f32_eq, f32_ne, f32_lt, f32_gt, f32_le, f32_ge, f64_eq, f64_ne, f64_lt,
  f64_gt, f64_le, f64_ge, i32_clz, i32_ctz, i32_popcnt, i32_add, i32_sub, i32_mul, i32_div_s,
  i32_div_u, i32_rem_s, i32_rem_u, i32_and, i32_or, i32_xor, i32_shl, i32_shr_s, i32_shr_u,
  i32_rotl, i32_rotr, i64_clz, i64_ctz, i64_popcnt, i64_add, i64_sub, i64_mul, i64_div_s, i64_div_u,
  i64_rem_s, i64_rem_u, i64_and, i64_or, i64_xor, i64_shl, i64_shr_s, i64_shr_u, i64_rotl, i64_rotr,
  f32_abs, f32_neg, f32_ceil, f32_floor, f32_trunc, f32_nearest, f32_sqrt, f32_add, f32_sub,
  f32_mul, f32_div, f32_min, f32_max, f32_copysign, f64_abs, f64_neg, f64_ceil, f64_floor,
  f64_trunc, f64_nearest, f64_sqrt, f64_add, f64_sub, f64_mul, f64_div, f64_min, f64_max,
  f64_copysign, i32_wrap_i64, i32_trunc_s_f32, i32_trunc_u_f32, i32_trunc_s_f64, i32_trunc_u_f64,
  i64_extend_s_i32, i64_extend_u_i32, i64_trunc_s_f32, i64_trunc_u_f32, i64_trunc_s_f64,
  i64_trunc_u_f64, f32_convert_s_i32, f32_convert_u_i32, f32_convert_s_i64, f32_convert_u_i64,
  f32_demote_f64, f64_convert_s_i32, f64_convert_u_i32, f64_convert_s_i64, f64_convert_u_i64,
  f64_promote_f32, i32_reinterpret_f32, i64_reinterpret_f64, f32_reinterpret_i32,
  f64_reinterpret_i64, i32_extend8_s, i32_extend16_s, i64_extend8_s, i64_extend16_s, i64_extend32_s,
  atomic_wake, i32_atomic_wait, i64_atomic_wait, i32_atomic_load, i64_atomic_load,
  i32_atomic_load8u, i32_atomic_load16u, i64_atomic_load8u, i64_atomic_load16u, i64_atomic_load32u,
  i32_atomic_store, i64_atomic_store, i32_atomic_store8u, i32_atomic_store16u, i64_atomic_store8u,
  i64_atomic_store16u, i64_atomic_store32u, i32_atomic_rmw_add, i64_atomic_rmw_add,
  i32_atomic_rmw_add8u, i32_atomic_rmw_add16u, i64_atomic_rmw_add8u, i64_atomic_rmw_add16u,
  i64_atomic_rmw_add32u, i32_atomic_rmw_sub, i64_atomic_rmw_sub, i32_atomic_rmw_sub8u,
  i32_atomic_rmw_sub16u, i64_atomic_rmw_sub8u, i64_atomic_rmw_sub16u, i64_atomic_rmw_sub32u,
  i32_atomic_rmw_and, i64_atomic_rmw_and, i32_atomic_rmw_and8u, i32_atomic_rmw_and16u,
  i64_atomic_rmw_and8u, i64_atomic_rmw_and16u, i64_atomic_rmw_and32u, i32_atomic_rmw_or,
  i64_atomic_rmw_or, i32_atomic_rmw_or8u, i32_atomic_rmw_or16u, i64_atomic_rmw_or8u,
  i64_atomic_rmw_or16u, i64_atomic_rmw_or32u, i32_atomic_rmw_xor, i64_atomic_rmw_xor,
  i32_atomic_rmw_xor8u, i32_atomic_rmw_xor16u, i64_atomic_rmw_xor8u, i64_atomic_rmw_xor16u,
  i64_atomic_rmw_xor32u, i32_atomic_rmw_xchg, i64_atomic_rmw_xchg, i32_atomic_rmw_xchg8u,
  i32_atomic_rmw_xchg16u, i64_atomic_rmw_xchg8u, i64_atomic_rmw_xchg16u, i64_atomic_rmw_xchg32u,
  i32_atomic_rmw_cmpxchg, i64_atomic_rmw_cmpxchg, i32_atomic_rmw_cmpxchg8u,
  i32_atomic_rmw_cmpxchg16u, i64_atomic_rmw_cmpxchg8u, i64_atomic_rmw_cmpxchg16u,
  i64_atomic_rmw_cmpxchg32u, v128_const, v128_load, v128_store, i8x16_splat, i16x8_splat,
  i32x4_splat, i64x2_splat, f32x4_splat, f64x2_splat, i8x16_extract_lane_s, i8x16_extract_lane_u,
  i16x8_extract_lane_s, i16x8_extract_lane_u, i32x4_extract_lane, i64x2_extract_lane,
  f32x4_extract_lane, f64x2_extract_lane, i8x16_replace_lane, i16x8_replace_lane,
  i32x4_replace_lane, i64x2_replace_lane, f32x4_replace_lane, f64x2_replace_lane, v8x16_shuffle,
  i8x16_add, i16x8_add, i32x4_add, i64x2_add, i8x16_sub, i16x8_sub, i32x4_sub, i64x2_sub, i8x16_mul,
  i16x8_mul, i32x4_mul, i8x16_neg, i16x8_neg, i32x4_neg, i64x2_neg, i8x16_add_saturate_s,
  i8x16_add_saturate_u, i16x8_add_saturate_s, i16x8_add_saturate_u, i8x16_sub_saturate_s,
  i8x16_sub_saturate_u, i16x8_sub_saturate_s, i16x8_sub_saturate_u, i8x16_shl, i16x8_shl, i32x4_shl,
  i64x2_shl, i8x16_shr_s, i8x16_shr_u, i16x8_shr_s, i16x8_shr_u, i32x4_shr_s, i32x4_shr_u,
  i64x2_shr_s, i64x2_shr_u, v128_and, v128_or, v128_xor, v128_not, v128_bitselect, i8x16_any_true,
  i16x8_any_true, i32x4_any_true, i64x2_any_true, i8x16_all_true, i16x8_all_true, i32x4_all_true,
  i64x2_all_true, i8x16_eq, i16x8_eq, i32x4_eq, f32x4_eq, f64x2_eq, i8x16_ne, i16x8_ne, i32x4_ne,
  f32x4_ne, f64x2_ne, i8x16_lt_s, i8x16_lt_u, i16x8_lt_s, i16x8_lt_u, i32x4_lt_s, i32x4_lt_u,
  f32x4_lt, f64x2_lt, i8x16_le_s, i8x16_le_u, i16x8_le_s, i16x8_le_u, i32x4_le_s, i32x4_le_u,
  f32x4_le, f64x2_le, i8x16_gt_s, i8x16_gt_u, i16x8_gt_s, i16x8_gt_u, i32x4_gt_s, i32x4_gt_u,
  f32x4_gt, f64x2_gt, i8x16_ge_s, i8x16_ge_u, i16x8_ge_s, i16x8_ge_u, i32x4_ge_s, i32x4_ge_u,
  f32x4_ge, f64x2_ge, f32x4_neg, f64x2_neg, f32x4_abs, f64x2_abs, f32x4_min, f64x2_min, f32x4_max,
  f64x2_max, f32x4_add, f64x2_add, f32x4_sub, f64x2_sub, f32x4_div, f64x2_div, f32x4_mul, f64x2_mul,
  f32x4_sqrt, f64x2_sqrt, f32x4_convert_s_i32x4, f32x4_convert_u_i32x4, f64x2_convert_s_i64x2,
  f64x2_convert_u_i64x2, i32x4_trunc_s_f32x4_sat, i32x4_trunc_u_f32x4_sat, i64x2_trunc_s_f64x2_sat,
  i64x2_trunc_u_f64x2_sat, memory_init, memory_drop, memory_copy, memory_fill, table_init,
  table_drop, table_copy,
}

abbrev pub serialize_mem_arg : MemArg → Written
serialize_mem_arg mem = Uint8.serialize mem.align ⊹ VarUint32.serialize mem.offset

abbrev op : ℕ → Written
op byte = ok (byte ∷ [])

abbrev op_with : ℕ → Written → Written
op_with byte s = op byte ⊹ s

abbrev atomic_op : ℕ → MemArg → Written
atomic_op byte mem = ok (0xfe ∷ byte ∷ []) ⊹ serialize_mem_arg mem

abbrev simd_op : ℕ → Written → Written
simd_op byte other = op 0xfd ⊹ VarUint32.serialize byte ⊹ other

abbrev bulk_op : ℕ → Written → Written
bulk_op byte remaining = ok (0xfc ∷ byte ∷ []) ⊹ remaining

unfoldable pub serialize_br_table : BrTableData → Written
serialize_br_table t =
    CountedList.serialize VarUint32.serialize (length t.table) t.table
    ⊹ VarUint32.serialize t.default

module _ (le : LittleEndian) where
  unfoldable pub serialize : Instruction → Written
  unfolding serialize_br_table
  serialize unreachable = op 0x00
  serialize nop = op 0x01
  serialize (block t) = op_with 0x02 (serialize_block_type t)
  serialize (loop t) = op_with 0x03 (serialize_block_type t)
  serialize (if_op t) = op_with 0x04 (serialize_block_type t)
  serialize else_op = op 0x05
  serialize end_op = op 0x0b
  serialize (br index) = op_with 0x0c (VarUint32.serialize index)
  serialize (br_if index) = op_with 0x0d (VarUint32.serialize index)
  serialize (br_table t) = op_with 0x0e (serialize_br_table t)
  serialize return = op 0x0f
  serialize (call index) = op_with 0x10 (VarUint32.serialize index)
  serialize (call_indirect index reserved) =
      op_with 0x11 (VarUint32.serialize index ⊹ Uint8.serialize reserved)
  serialize drop = op 0x1a
  serialize select = op 0x1b
  serialize (get_local index) = op_with 0x20 (VarUint32.serialize index)
  serialize (set_local index) = op_with 0x21 (VarUint32.serialize index)
  serialize (tee_local index) = op_with 0x22 (VarUint32.serialize index)
  serialize (get_global index) = op_with 0x23 (VarUint32.serialize index)
  serialize (set_global index) = op_with 0x24 (VarUint32.serialize index)
  serialize (i32_load flags offset) =
      op_with 0x28 (VarUint32.serialize flags ⊹ VarUint32.serialize offset)
  serialize (i64_load flags offset) =
      op_with 0x29 (VarUint32.serialize flags ⊹ VarUint32.serialize offset)
  serialize (f32_load flags offset) =
      op_with 0x2a (VarUint32.serialize flags ⊹ VarUint32.serialize offset)
  serialize (f64_load flags offset) =
      op_with 0x2b (VarUint32.serialize flags ⊹ VarUint32.serialize offset)
  serialize (i32_load8_s flags offset) =
      op_with 0x2c (VarUint32.serialize flags ⊹ VarUint32.serialize offset)
  serialize (i32_load8_u flags offset) =
      op_with 0x2d (VarUint32.serialize flags ⊹ VarUint32.serialize offset)
  serialize (i32_load16_s flags offset) =
      op_with 0x2e (VarUint32.serialize flags ⊹ VarUint32.serialize offset)
  serialize (i32_load16_u flags offset) =
      op_with 0x2f (VarUint32.serialize flags ⊹ VarUint32.serialize offset)
  serialize (i64_load8_s flags offset) =
      op_with 0x30 (VarUint32.serialize flags ⊹ VarUint32.serialize offset)
  serialize (i64_load8_u flags offset) =
      op_with 0x31 (VarUint32.serialize flags ⊹ VarUint32.serialize offset)
  serialize (i64_load16_s flags offset) =
      op_with 0x32 (VarUint32.serialize flags ⊹ VarUint32.serialize offset)
  serialize (i64_load16_u flags offset) =
      op_with 0x33 (VarUint32.serialize flags ⊹ VarUint32.serialize offset)
  serialize (i64_load32_s flags offset) =
      op_with 0x34 (VarUint32.serialize flags ⊹ VarUint32.serialize offset)
  serialize (i64_load32_u flags offset) =
      op_with 0x35 (VarUint32.serialize flags ⊹ VarUint32.serialize offset)
  serialize (i32_store flags offset) =
      op_with 0x36 (VarUint32.serialize flags ⊹ VarUint32.serialize offset)
  serialize (i64_store flags offset) =
      op_with 0x37 (VarUint32.serialize flags ⊹ VarUint32.serialize offset)
  serialize (f32_store flags offset) =
      op_with 0x38 (VarUint32.serialize flags ⊹ VarUint32.serialize offset)
  serialize (f64_store flags offset) =
      op_with 0x39 (VarUint32.serialize flags ⊹ VarUint32.serialize offset)
  serialize (i32_store8 flags offset) =
      op_with 0x3a (VarUint32.serialize flags ⊹ VarUint32.serialize offset)
  serialize (i32_store16 flags offset) =
      op_with 0x3b (VarUint32.serialize flags ⊹ VarUint32.serialize offset)
  serialize (i64_store8 flags offset) =
      op_with 0x3c (VarUint32.serialize flags ⊹ VarUint32.serialize offset)
  serialize (i64_store16 flags offset) =
      op_with 0x3d (VarUint32.serialize flags ⊹ VarUint32.serialize offset)
  serialize (i64_store32 flags offset) =
      op_with 0x3e (VarUint32.serialize flags ⊹ VarUint32.serialize offset)
  serialize (current_memory flag) = op_with 0x3f (Uint8.serialize flag)
  serialize (grow_memory flag) = op_with 0x40 (Uint8.serialize flag)
  serialize (i32_const n) = op_with 0x41 (VarInt32.serialize n)
  serialize (i64_const n) = op_with 0x42 (VarInt64.serialize n)
  serialize (f32_const n) = op_with 0x43 (Uint32.serialize le n)
  serialize (f64_const n) = op_with 0x44 (Uint64.serialize le n)
  serialize i32_eqz = op 0x45
  serialize i32_eq = op 0x46
  serialize i32_ne = op 0x47
  serialize i32_lt_s = op 0x48
  serialize i32_lt_u = op 0x49
  serialize i32_gt_s = op 0x4a
  serialize i32_gt_u = op 0x4b
  serialize i32_le_s = op 0x4c
  serialize i32_le_u = op 0x4d
  serialize i32_ge_s = op 0x4e
  serialize i32_ge_u = op 0x4f
  serialize i64_eqz = op 0x50
  serialize i64_eq = op 0x51
  serialize i64_ne = op 0x52
  serialize i64_lt_s = op 0x53
  serialize i64_lt_u = op 0x54
  serialize i64_gt_s = op 0x55
  serialize i64_gt_u = op 0x56
  serialize i64_le_s = op 0x57
  serialize i64_le_u = op 0x58
  serialize i64_ge_s = op 0x59
  serialize i64_ge_u = op 0x5a
  serialize f32_eq = op 0x5b
  serialize f32_ne = op 0x5c
  serialize f32_lt = op 0x5d
  serialize f32_gt = op 0x5e
  serialize f32_le = op 0x5f
  serialize f32_ge = op 0x60
  serialize f64_eq = op 0x61
  serialize f64_ne = op 0x62
  serialize f64_lt = op 0x63
  serialize f64_gt = op 0x64
  serialize f64_le = op 0x65
  serialize f64_ge = op 0x66
  serialize i32_clz = op 0x67
  serialize i32_ctz = op 0x68
  serialize i32_popcnt = op 0x69
  serialize i32_add = op 0x6a
  serialize i32_sub = op 0x6b
  serialize i32_mul = op 0x6c
  serialize i32_div_s = op 0x6d
  serialize i32_div_u = op 0x6e
  serialize i32_rem_s = op 0x6f
  serialize i32_rem_u = op 0x70
  serialize i32_and = op 0x71
  serialize i32_or = op 0x72
  serialize i32_xor = op 0x73
  serialize i32_shl = op 0x74
  serialize i32_shr_s = op 0x75
  serialize i32_shr_u = op 0x76
  serialize i32_rotl = op 0x77
  serialize i32_rotr = op 0x78
  serialize i64_clz = op 0x79
  serialize i64_ctz = op 0x7a
  serialize i64_popcnt = op 0x7b
  serialize i64_add = op 0x7c
  serialize i64_sub = op 0x7d
  serialize i64_mul = op 0x7e
  serialize i64_div_s = op 0x7f
  serialize i64_div_u = op 0x80
  serialize i64_rem_s = op 0x81
  serialize i64_rem_u = op 0x82
  serialize i64_and = op 0x83
  serialize i64_or = op 0x84
  serialize i64_xor = op 0x85
  serialize i64_shl = op 0x86
  serialize i64_shr_s = op 0x87
  serialize i64_shr_u = op 0x88
  serialize i64_rotl = op 0x89
  serialize i64_rotr = op 0x8a
  serialize f32_abs = op 0x8b
  serialize f32_neg = op 0x8c
  serialize f32_ceil = op 0x8d
  serialize f32_floor = op 0x8e
  serialize f32_trunc = op 0x8f
  serialize f32_nearest = op 0x90
  serialize f32_sqrt = op 0x91
  serialize f32_add = op 0x92
  serialize f32_sub = op 0x93
  serialize f32_mul = op 0x94
  serialize f32_div = op 0x95
  serialize f32_min = op 0x96
  serialize f32_max = op 0x97
  serialize f32_copysign = op 0x98
  serialize f64_abs = op 0x99
  serialize f64_neg = op 0x9a
  serialize f64_ceil = op 0x9b
  serialize f64_floor = op 0x9c
  serialize f64_trunc = op 0x9d
  serialize f64_nearest = op 0x9e
  serialize f64_sqrt = op 0x9f
  serialize f64_add = op 0xa0
  serialize f64_sub = op 0xa1
  serialize f64_mul = op 0xa2
  serialize f64_div = op 0xa3
  serialize f64_min = op 0xa4
  serialize f64_max = op 0xa5
  serialize f64_copysign = op 0xa6
  serialize i32_wrap_i64 = op 0xa7
  serialize i32_trunc_s_f32 = op 0xa8
  serialize i32_trunc_u_f32 = op 0xa9
  serialize i32_trunc_s_f64 = op 0xaa
  serialize i32_trunc_u_f64 = op 0xab
  serialize i64_extend_s_i32 = op 0xac
  serialize i64_extend_u_i32 = op 0xad
  serialize i64_trunc_s_f32 = op 0xae
  serialize i64_trunc_u_f32 = op 0xaf
  serialize i64_trunc_s_f64 = op 0xb0
  serialize i64_trunc_u_f64 = op 0xb1
  serialize f32_convert_s_i32 = op 0xb2
  serialize f32_convert_u_i32 = op 0xb3
  serialize f32_convert_s_i64 = op 0xb4
  serialize f32_convert_u_i64 = op 0xb5
  serialize f32_demote_f64 = op 0xb6
  serialize f64_convert_s_i32 = op 0xb7
  serialize f64_convert_u_i32 = op 0xb8
  serialize f64_convert_s_i64 = op 0xb9
  serialize f64_convert_u_i64 = op 0xba
  serialize f64_promote_f32 = op 0xbb
  serialize i32_reinterpret_f32 = op 0xbc
  serialize i64_reinterpret_f64 = op 0xbd
  serialize f32_reinterpret_i32 = op 0xbe
  serialize f64_reinterpret_i64 = op 0xbf
  serialize i32_extend8_s = op 0xc0
  serialize i32_extend16_s = op 0xc1
  serialize i64_extend8_s = op 0xc2
  serialize i64_extend16_s = op 0xc3
  serialize i64_extend32_s = op 0xc4
  serialize (atomic_wake mem) = atomic_op 0x00 mem
  serialize (i32_atomic_wait mem) = atomic_op 0x01 mem
  serialize (i64_atomic_wait mem) = atomic_op 0x02 mem
  serialize (i32_atomic_load mem) = atomic_op 0x10 mem
  serialize (i64_atomic_load mem) = atomic_op 0x11 mem
  serialize (i32_atomic_load8u mem) = atomic_op 0x12 mem
  serialize (i32_atomic_load16u mem) = atomic_op 0x13 mem
  serialize (i64_atomic_load8u mem) = atomic_op 0x14 mem
  serialize (i64_atomic_load16u mem) = atomic_op 0x15 mem
  serialize (i64_atomic_load32u mem) = atomic_op 0x16 mem
  serialize (i32_atomic_store mem) = atomic_op 0x17 mem
  serialize (i64_atomic_store mem) = atomic_op 0x18 mem
  serialize (i32_atomic_store8u mem) = atomic_op 0x19 mem
  serialize (i32_atomic_store16u mem) = atomic_op 0x1a mem
  serialize (i64_atomic_store8u mem) = atomic_op 0x1b mem
  serialize (i64_atomic_store16u mem) = atomic_op 0x1c mem
  serialize (i64_atomic_store32u mem) = atomic_op 0x1d mem
  serialize (i32_atomic_rmw_add mem) = atomic_op 0x1e mem
  serialize (i64_atomic_rmw_add mem) = atomic_op 0x1f mem
  serialize (i32_atomic_rmw_add8u mem) = atomic_op 0x20 mem
  serialize (i32_atomic_rmw_add16u mem) = atomic_op 0x21 mem
  serialize (i64_atomic_rmw_add8u mem) = atomic_op 0x22 mem
  serialize (i64_atomic_rmw_add16u mem) = atomic_op 0x23 mem
  serialize (i64_atomic_rmw_add32u mem) = atomic_op 0x24 mem
  serialize (i32_atomic_rmw_sub mem) = atomic_op 0x25 mem
  serialize (i64_atomic_rmw_sub mem) = atomic_op 0x26 mem
  serialize (i32_atomic_rmw_sub8u mem) = atomic_op 0x27 mem
  serialize (i32_atomic_rmw_sub16u mem) = atomic_op 0x28 mem
  serialize (i64_atomic_rmw_sub8u mem) = atomic_op 0x29 mem
  serialize (i64_atomic_rmw_sub16u mem) = atomic_op 0x2a mem
  serialize (i64_atomic_rmw_sub32u mem) = atomic_op 0x2b mem
  serialize (i32_atomic_rmw_and mem) = atomic_op 0x2c mem
  serialize (i64_atomic_rmw_and mem) = atomic_op 0x2d mem
  serialize (i32_atomic_rmw_and8u mem) = atomic_op 0x2e mem
  serialize (i32_atomic_rmw_and16u mem) = atomic_op 0x2f mem
  serialize (i64_atomic_rmw_and8u mem) = atomic_op 0x30 mem
  serialize (i64_atomic_rmw_and16u mem) = atomic_op 0x31 mem
  serialize (i64_atomic_rmw_and32u mem) = atomic_op 0x32 mem
  serialize (i32_atomic_rmw_or mem) = atomic_op 0x33 mem
  serialize (i64_atomic_rmw_or mem) = atomic_op 0x34 mem
  serialize (i32_atomic_rmw_or8u mem) = atomic_op 0x35 mem
  serialize (i32_atomic_rmw_or16u mem) = atomic_op 0x36 mem
  serialize (i64_atomic_rmw_or8u mem) = atomic_op 0x37 mem
  serialize (i64_atomic_rmw_or16u mem) = atomic_op 0x38 mem
  serialize (i64_atomic_rmw_or32u mem) = atomic_op 0x39 mem
  serialize (i32_atomic_rmw_xor mem) = atomic_op 0x3a mem
  serialize (i64_atomic_rmw_xor mem) = atomic_op 0x3b mem
  serialize (i32_atomic_rmw_xor8u mem) = atomic_op 0x3c mem
  serialize (i32_atomic_rmw_xor16u mem) = atomic_op 0x3d mem
  serialize (i64_atomic_rmw_xor8u mem) = atomic_op 0x3e mem
  serialize (i64_atomic_rmw_xor16u mem) = atomic_op 0x3f mem
  serialize (i64_atomic_rmw_xor32u mem) = atomic_op 0x40 mem
  serialize (i32_atomic_rmw_xchg mem) = atomic_op 0x41 mem
  serialize (i64_atomic_rmw_xchg mem) = atomic_op 0x42 mem
  serialize (i32_atomic_rmw_xchg8u mem) = atomic_op 0x43 mem
  serialize (i32_atomic_rmw_xchg16u mem) = atomic_op 0x44 mem
  serialize (i64_atomic_rmw_xchg8u mem) = atomic_op 0x45 mem
  serialize (i64_atomic_rmw_xchg16u mem) = atomic_op 0x46 mem
  serialize (i64_atomic_rmw_xchg32u mem) = atomic_op 0x47 mem
  serialize (i32_atomic_rmw_cmpxchg mem) = atomic_op 0x48 mem
  serialize (i64_atomic_rmw_cmpxchg mem) = atomic_op 0x49 mem
  serialize (i32_atomic_rmw_cmpxchg8u mem) = atomic_op 0x4a mem
  serialize (i32_atomic_rmw_cmpxchg16u mem) = atomic_op 0x4b mem
  serialize (i64_atomic_rmw_cmpxchg8u mem) = atomic_op 0x4c mem
  serialize (i64_atomic_rmw_cmpxchg16u mem) = atomic_op 0x4d mem
  serialize (i64_atomic_rmw_cmpxchg32u mem) = atomic_op 0x4e mem
  serialize (v128_const buf) = simd_op 0x02 (ok buf)
  serialize (v128_load mem) = simd_op 0x00 (serialize_mem_arg mem)
  serialize (v128_store mem) = simd_op 0x01 (serialize_mem_arg mem)
  serialize i8x16_splat = simd_op 0x04 (ok [])
  serialize i16x8_splat = simd_op 0x08 (ok [])
  serialize i32x4_splat = simd_op 0x0c (ok [])
  serialize i64x2_splat = simd_op 0x0f (ok [])
  serialize f32x4_splat = simd_op 0x12 (ok [])
  serialize f64x2_splat = simd_op 0x15 (ok [])
  serialize (i8x16_extract_lane_s lane) = simd_op 0x05 (ok (lane ∷ []))
  serialize (i8x16_extract_lane_u lane) = simd_op 0x06 (ok (lane ∷ []))
  serialize (i16x8_extract_lane_s lane) = simd_op 0x09 (ok (lane ∷ []))
  serialize (i16x8_extract_lane_u lane) = simd_op 0x0a (ok (lane ∷ []))
  serialize (i32x4_extract_lane lane) = simd_op 0x0d (ok (lane ∷ []))
  serialize (i64x2_extract_lane lane) = simd_op 0x10 (ok (lane ∷ []))
  serialize (f32x4_extract_lane lane) = simd_op 0x13 (ok (lane ∷ []))
  serialize (f64x2_extract_lane lane) = simd_op 0x16 (ok (lane ∷ []))
  serialize (i8x16_replace_lane lane) = simd_op 0x07 (ok (lane ∷ []))
  serialize (i16x8_replace_lane lane) = simd_op 0x0b (ok (lane ∷ []))
  serialize (i32x4_replace_lane lane) = simd_op 0x0e (ok (lane ∷ []))
  serialize (i64x2_replace_lane lane) = simd_op 0x11 (ok (lane ∷ []))
  serialize (f32x4_replace_lane lane) = simd_op 0x14 (ok (lane ∷ []))
  serialize (f64x2_replace_lane lane) = simd_op 0x17 (ok (lane ∷ []))
  serialize (v8x16_shuffle buf) = simd_op 0x03 (ok buf)
  serialize i8x16_add = simd_op 0x57 (ok [])
  serialize i16x8_add = simd_op 0x68 (ok [])
  serialize i32x4_add = simd_op 0x79 (ok [])
  serialize i64x2_add = simd_op 0x8a (ok [])
  serialize i8x16_sub = simd_op 0x5a (ok [])
  serialize i16x8_sub = simd_op 0x6b (ok [])
  serialize i32x4_sub = simd_op 0x7c (ok [])
  serialize i64x2_sub = simd_op 0x8d (ok [])
  serialize i8x16_mul = simd_op 0x5d (ok [])
  serialize i16x8_mul = simd_op 0x6e (ok [])
  serialize i32x4_mul = simd_op 0x7f (ok [])
  serialize i8x16_neg = simd_op 0x51 (ok [])
  serialize i16x8_neg = simd_op 0x62 (ok [])
  serialize i32x4_neg = simd_op 0x73 (ok [])
  serialize i64x2_neg = simd_op 0x84 (ok [])
  serialize i8x16_add_saturate_s = simd_op 0x58 (ok [])
  serialize i8x16_add_saturate_u = simd_op 0x59 (ok [])
  serialize i16x8_add_saturate_s = simd_op 0x69 (ok [])
  serialize i16x8_add_saturate_u = simd_op 0x6a (ok [])
  serialize i8x16_sub_saturate_s = simd_op 0x5b (ok [])
  serialize i8x16_sub_saturate_u = simd_op 0x5c (ok [])
  serialize i16x8_sub_saturate_s = simd_op 0x6c (ok [])
  serialize i16x8_sub_saturate_u = simd_op 0x6d (ok [])
  serialize i8x16_shl = simd_op 0x54 (ok [])
  serialize i16x8_shl = simd_op 0x65 (ok [])
  serialize i32x4_shl = simd_op 0x76 (ok [])
  serialize i64x2_shl = simd_op 0x87 (ok [])
  serialize i8x16_shr_s = simd_op 0x55 (ok [])
  serialize i8x16_shr_u = simd_op 0x56 (ok [])
  serialize i16x8_shr_s = simd_op 0x66 (ok [])
  serialize i16x8_shr_u = simd_op 0x67 (ok [])
  serialize i32x4_shr_s = simd_op 0x77 (ok [])
  serialize i32x4_shr_u = simd_op 0x78 (ok [])
  serialize i64x2_shr_s = simd_op 0x88 (ok [])
  serialize i64x2_shr_u = simd_op 0x89 (ok [])
  serialize v128_and = simd_op 0x4d (ok [])
  serialize v128_or = simd_op 0x4e (ok [])
  serialize v128_xor = simd_op 0x4f (ok [])
  serialize v128_not = simd_op 0x4c (ok [])
  serialize v128_bitselect = simd_op 0x50 (ok [])
  serialize i8x16_any_true = simd_op 0x52 (ok [])
  serialize i16x8_any_true = simd_op 0x63 (ok [])
  serialize i32x4_any_true = simd_op 0x74 (ok [])
  serialize i64x2_any_true = simd_op 0x85 (ok [])
  serialize i8x16_all_true = simd_op 0x53 (ok [])
  serialize i16x8_all_true = simd_op 0x64 (ok [])
  serialize i32x4_all_true = simd_op 0x75 (ok [])
  serialize i64x2_all_true = simd_op 0x86 (ok [])
  serialize i8x16_eq = simd_op 0x18 (ok [])
  serialize i16x8_eq = simd_op 0x22 (ok [])
  serialize i32x4_eq = simd_op 0x2c (ok [])
  serialize f32x4_eq = simd_op 0x40 (ok [])
  serialize f64x2_eq = simd_op 0x46 (ok [])
  serialize i8x16_ne = simd_op 0x19 (ok [])
  serialize i16x8_ne = simd_op 0x23 (ok [])
  serialize i32x4_ne = simd_op 0x2d (ok [])
  serialize f32x4_ne = simd_op 0x41 (ok [])
  serialize f64x2_ne = simd_op 0x47 (ok [])
  serialize i8x16_lt_s = simd_op 0x1a (ok [])
  serialize i8x16_lt_u = simd_op 0x1b (ok [])
  serialize i16x8_lt_s = simd_op 0x24 (ok [])
  serialize i16x8_lt_u = simd_op 0x25 (ok [])
  serialize i32x4_lt_s = simd_op 0x2e (ok [])
  serialize i32x4_lt_u = simd_op 0x2f (ok [])
  serialize f32x4_lt = simd_op 0x42 (ok [])
  serialize f64x2_lt = simd_op 0x48 (ok [])
  serialize i8x16_le_s = simd_op 0x1e (ok [])
  serialize i8x16_le_u = simd_op 0x1f (ok [])
  serialize i16x8_le_s = simd_op 0x28 (ok [])
  serialize i16x8_le_u = simd_op 0x29 (ok [])
  serialize i32x4_le_s = simd_op 0x32 (ok [])
  serialize i32x4_le_u = simd_op 0x33 (ok [])
  serialize f32x4_le = simd_op 0x44 (ok [])
  serialize f64x2_le = simd_op 0x4a (ok [])
  serialize i8x16_gt_s = simd_op 0x1c (ok [])
  serialize i8x16_gt_u = simd_op 0x1d (ok [])
  serialize i16x8_gt_s = simd_op 0x26 (ok [])
  serialize i16x8_gt_u = simd_op 0x27 (ok [])
  serialize i32x4_gt_s = simd_op 0x30 (ok [])
  serialize i32x4_gt_u = simd_op 0x31 (ok [])
  serialize f32x4_gt = simd_op 0x43 (ok [])
  serialize f64x2_gt = simd_op 0x49 (ok [])
  serialize i8x16_ge_s = simd_op 0x20 (ok [])
  serialize i8x16_ge_u = simd_op 0x21 (ok [])
  serialize i16x8_ge_s = simd_op 0x2a (ok [])
  serialize i16x8_ge_u = simd_op 0x2b (ok [])
  serialize i32x4_ge_s = simd_op 0x34 (ok [])
  serialize i32x4_ge_u = simd_op 0x35 (ok [])
  serialize f32x4_ge = simd_op 0x45 (ok [])
  serialize f64x2_ge = simd_op 0x4b (ok [])
  serialize f32x4_neg = simd_op 0x96 (ok [])
  serialize f64x2_neg = simd_op 0xa1 (ok [])
  serialize f32x4_abs = simd_op 0x95 (ok [])
  serialize f64x2_abs = simd_op 0xa0 (ok [])
  serialize f32x4_min = simd_op 0x9e (ok [])
  serialize f64x2_min = simd_op 0xa9 (ok [])
  serialize f32x4_max = simd_op 0x9f (ok [])
  serialize f64x2_max = simd_op 0xaa (ok [])
  serialize f32x4_add = simd_op 0x9a (ok [])
  serialize f64x2_add = simd_op 0xa5 (ok [])
  serialize f32x4_sub = simd_op 0x9b (ok [])
  serialize f64x2_sub = simd_op 0xa6 (ok [])
  serialize f32x4_div = simd_op 0x9d (ok [])
  serialize f64x2_div = simd_op 0xa8 (ok [])
  serialize f32x4_mul = simd_op 0x9c (ok [])
  serialize f64x2_mul = simd_op 0xa7 (ok [])
  serialize f32x4_sqrt = simd_op 0x97 (ok [])
  serialize f64x2_sqrt = simd_op 0xa2 (ok [])
  serialize f32x4_convert_s_i32x4 = simd_op 0xaf (ok [])
  serialize f32x4_convert_u_i32x4 = simd_op 0xb0 (ok [])
  serialize f64x2_convert_s_i64x2 = simd_op 0xb1 (ok [])
  serialize f64x2_convert_u_i64x2 = simd_op 0xb2 (ok [])
  serialize i32x4_trunc_s_f32x4_sat = simd_op 0xab (ok [])
  serialize i32x4_trunc_u_f32x4_sat = simd_op 0xac (ok [])
  serialize i64x2_trunc_s_f64x2_sat = simd_op 0xad (ok [])
  serialize i64x2_trunc_u_f64x2_sat = simd_op 0xae (ok [])
  serialize (memory_init seg) = bulk_op 0x08 (Uint8.serialize 0 ⊹ VarUint32.serialize seg)
  serialize (memory_drop seg) = bulk_op 0x09 (VarUint32.serialize seg)
  serialize memory_copy = bulk_op 0x0a (Uint8.serialize 0)
  serialize memory_fill = bulk_op 0x0b (Uint8.serialize 0)
  serialize (table_init seg) = bulk_op 0x0c (Uint8.serialize 0 ⊹ VarUint32.serialize seg)
  serialize (table_drop seg) = bulk_op 0x0d (VarUint32.serialize seg)
  serialize table_copy = bulk_op 0x0e (Uint8.serialize 0)
