-- ===== src/Elements/Ops/Read/Simd.antt =====
-- src/elements/ops.rs: `deserialize_simd`.
use parity_wasm.Base.{ℕ, List, [], ◌∷◌}
use parity_wasm.Elements.Error.{unknown_simd_opcode}
use parity_wasm.Elements.Codec.{Reader, ◌>>=◌, pure, fail}
use parity_wasm.Elements.Primitives.VarUint32
use parity_wasm.Elements.Ops.{
  Instruction, v128_const, v128_load, v128_store, i8x16_splat, i16x8_splat, i32x4_splat,
  i64x2_splat, f32x4_splat, f64x2_splat, i8x16_extract_lane_s, i8x16_extract_lane_u,
  i16x8_extract_lane_s, i16x8_extract_lane_u, i32x4_extract_lane, i64x2_extract_lane,
  f32x4_extract_lane, f64x2_extract_lane, i8x16_replace_lane, i16x8_replace_lane,
  i32x4_replace_lane, i64x2_replace_lane, f32x4_replace_lane, f64x2_replace_lane, v8x16_shuffle,
  i8x16_add, i16x8_add, i32x4_add, i64x2_add, i8x16_sub, i16x8_sub, i32x4_sub, i64x2_sub, i8x16_mul,
  i16x8_mul, i32x4_mul, i8x16_neg, i16x8_neg, i32x4_neg, i64x2_neg, i8x16_add_saturate_s,
  i8x16_add_saturate_u, i16x8_add_saturate_s, i16x8_add_saturate_u, i8x16_sub_saturate_s,
  i8x16_sub_saturate_u, i16x8_sub_saturate_s, i16x8_sub_saturate_u, i8x16_shl, i16x8_shl, i32x4_shl,
  i64x2_shl, i8x16_shr_s, i8x16_shr_u, i16x8_shr_s, i16x8_shr_u, i32x4_shr_s, i32x4_shr_u,
  i64x2_shr_s, i64x2_shr_u, v128_and, v128_or, v128_xor, v128_not, v128_bitselect, i8x16_any_true,
  i16x8_any_true, i32x4_any_true, i64x2_any_true, i8x16_all_true, i16x8_all_true, i32x4_all_true,
  i64x2_all_true, i8x16_eq, i16x8_eq, i32x4_eq, f32x4_eq, f64x2_eq, i8x16_ne, i16x8_ne, i32x4_ne,
  f32x4_ne, f64x2_ne, i8x16_lt_s, i8x16_lt_u, i16x8_lt_s, i16x8_lt_u, i32x4_lt_s, i32x4_lt_u,
  f32x4_lt, f64x2_lt, i8x16_le_s, i8x16_le_u, i16x8_le_s, i16x8_le_u, i32x4_le_s, i32x4_le_u,
  f32x4_le, f64x2_le, i8x16_gt_s, i8x16_gt_u, i16x8_gt_s, i16x8_gt_u, i32x4_gt_s, i32x4_gt_u,
  f32x4_gt, f64x2_gt, i8x16_ge_s, i8x16_ge_u, i16x8_ge_s, i16x8_ge_u, i32x4_ge_s, i32x4_ge_u,
  f32x4_ge, f64x2_ge, f32x4_neg, f64x2_neg, f32x4_abs, f64x2_abs, f32x4_min, f64x2_min, f32x4_max,
  f64x2_max, f32x4_add, f64x2_add, f32x4_sub, f64x2_sub, f32x4_div, f64x2_div, f32x4_mul, f64x2_mul,
  f32x4_sqrt, f64x2_sqrt, f32x4_convert_s_i32x4, f32x4_convert_u_i32x4, f64x2_convert_s_i64x2,
  f64x2_convert_u_i64x2, i32x4_trunc_s_f32x4_sat, i32x4_trunc_u_f32x4_sat, i64x2_trunc_s_f64x2_sat,
  i64x2_trunc_u_f64x2_sat,
}
use parity_wasm.Elements.Ops.Read.Operands.{Arm, choose, read_memory, read_lane, read_sixteen}

abbrev pub simd : List Arm
simd =
    (0x02, read_sixteen v128_const)
    ∷ (0x00, read_memory v128_load)
    ∷ (0x01, read_memory v128_store)
    ∷ (0x04, pure i8x16_splat)
    ∷ (0x08, pure i16x8_splat)
    ∷ (0x0c, pure i32x4_splat)
    ∷ (0x0f, pure i64x2_splat)
    ∷ (0x12, pure f32x4_splat)
    ∷ (0x15, pure f64x2_splat)
    ∷ (0x05, read_lane i8x16_extract_lane_s)
    ∷ (0x06, read_lane i8x16_extract_lane_u)
    ∷ (0x09, read_lane i16x8_extract_lane_s)
    ∷ (0x0a, read_lane i16x8_extract_lane_u)
    ∷ (0x0d, read_lane i32x4_extract_lane)
    ∷ (0x10, read_lane i64x2_extract_lane)
    ∷ (0x13, read_lane f32x4_extract_lane)
    ∷ (0x16, read_lane f64x2_extract_lane)
    ∷ (0x07, read_lane i8x16_replace_lane)
    ∷ (0x0b, read_lane i16x8_replace_lane)
    ∷ (0x0e, read_lane i32x4_replace_lane)
    ∷ (0x11, read_lane i64x2_replace_lane)
    ∷ (0x14, read_lane f32x4_replace_lane)
    ∷ (0x17, read_lane f64x2_replace_lane)
    ∷ (0x03, read_sixteen v8x16_shuffle)
    ∷ (0x57, pure i8x16_add)
    ∷ (0x68, pure i16x8_add)
    ∷ (0x79, pure i32x4_add)
    ∷ (0x8a, pure i64x2_add)
    ∷ (0x5a, pure i8x16_sub)
    ∷ (0x6b, pure i16x8_sub)
    ∷ (0x7c, pure i32x4_sub)
    ∷ (0x8d, pure i64x2_sub)
    ∷ (0x5d, pure i8x16_mul)
    ∷ (0x6e, pure i16x8_mul)
    ∷ (0x7f, pure i32x4_mul)
    ∷ (0x51, pure i8x16_neg)
    ∷ (0x62, pure i16x8_neg)
    ∷ (0x73, pure i32x4_neg)
    ∷ (0x84, pure i64x2_neg)
    ∷ (0x58, pure i8x16_add_saturate_s)
    ∷ (0x59, pure i8x16_add_saturate_u)
    ∷ (0x69, pure i16x8_add_saturate_s)
    ∷ (0x6a, pure i16x8_add_saturate_u)
    ∷ (0x5b, pure i8x16_sub_saturate_s)
    ∷ (0x5c, pure i8x16_sub_saturate_u)
    ∷ (0x6c, pure i16x8_sub_saturate_s)
    ∷ (0x6d, pure i16x8_sub_saturate_u)
    ∷ (0x54, pure i8x16_shl)
    ∷ (0x65, pure i16x8_shl)
    ∷ (0x76, pure i32x4_shl)
    ∷ (0x87, pure i64x2_shl)
    ∷ (0x55, pure i8x16_shr_s)
    ∷ (0x56, pure i8x16_shr_u)
    ∷ (0x66, pure i16x8_shr_s)
    ∷ (0x67, pure i16x8_shr_u)
    ∷ (0x77, pure i32x4_shr_s)
    ∷ (0x78, pure i32x4_shr_u)
    ∷ (0x88, pure i64x2_shr_s)
    ∷ (0x89, pure i64x2_shr_u)
    ∷ (0x4d, pure v128_and)
    ∷ (0x4e, pure v128_or)
    ∷ (0x4f, pure v128_xor)
    ∷ (0x4c, pure v128_not)
    ∷ (0x50, pure v128_bitselect)
    ∷ (0x52, pure i8x16_any_true)
    ∷ (0x63, pure i16x8_any_true)
    ∷ (0x74, pure i32x4_any_true)
    ∷ (0x85, pure i64x2_any_true)
    ∷ (0x53, pure i8x16_all_true)
    ∷ (0x64, pure i16x8_all_true)
    ∷ (0x75, pure i32x4_all_true)
    ∷ (0x86, pure i64x2_all_true)
    ∷ (0x18, pure i8x16_eq)
    ∷ (0x22, pure i16x8_eq)
    ∷ (0x2c, pure i32x4_eq)
    ∷ (0x40, pure f32x4_eq)
    ∷ (0x46, pure f64x2_eq)
    ∷ (0x19, pure i8x16_ne)
    ∷ (0x23, pure i16x8_ne)
    ∷ (0x2d, pure i32x4_ne)
    ∷ (0x41, pure f32x4_ne)
    ∷ (0x47, pure f64x2_ne)
    ∷ (0x1a, pure i8x16_lt_s)
    ∷ (0x1b, pure i8x16_lt_u)
    ∷ (0x24, pure i16x8_lt_s)
    ∷ (0x25, pure i16x8_lt_u)
    ∷ (0x2e, pure i32x4_lt_s)
    ∷ (0x2f, pure i32x4_lt_u)
    ∷ (0x42, pure f32x4_lt)
    ∷ (0x48, pure f64x2_lt)
    ∷ (0x1e, pure i8x16_le_s)
    ∷ (0x1f, pure i8x16_le_u)
    ∷ (0x28, pure i16x8_le_s)
    ∷ (0x29, pure i16x8_le_u)
    ∷ (0x32, pure i32x4_le_s)
    ∷ (0x33, pure i32x4_le_u)
    ∷ (0x44, pure f32x4_le)
    ∷ (0x4a, pure f64x2_le)
    ∷ (0x1c, pure i8x16_gt_s)
    ∷ (0x1d, pure i8x16_gt_u)
    ∷ (0x26, pure i16x8_gt_s)
    ∷ (0x27, pure i16x8_gt_u)
    ∷ (0x30, pure i32x4_gt_s)
    ∷ (0x31, pure i32x4_gt_u)
    ∷ (0x43, pure f32x4_gt)
    ∷ (0x49, pure f64x2_gt)
    ∷ (0x20, pure i8x16_ge_s)
    ∷ (0x21, pure i8x16_ge_u)
    ∷ (0x2a, pure i16x8_ge_s)
    ∷ (0x2b, pure i16x8_ge_u)
    ∷ (0x34, pure i32x4_ge_s)
    ∷ (0x35, pure i32x4_ge_u)
    ∷ (0x45, pure f32x4_ge)
    ∷ (0x4b, pure f64x2_ge)
    ∷ (0x96, pure f32x4_neg)
    ∷ (0xa1, pure f64x2_neg)
    ∷ (0x95, pure f32x4_abs)
    ∷ (0xa0, pure f64x2_abs)
    ∷ (0x9e, pure f32x4_min)
    ∷ (0xa9, pure f64x2_min)
    ∷ (0x9f, pure f32x4_max)
    ∷ (0xaa, pure f64x2_max)
    ∷ (0x9a, pure f32x4_add)
    ∷ (0xa5, pure f64x2_add)
    ∷ (0x9b, pure f32x4_sub)
    ∷ (0xa6, pure f64x2_sub)
    ∷ (0x9d, pure f32x4_div)
    ∷ (0xa8, pure f64x2_div)
    ∷ (0x9c, pure f32x4_mul)
    ∷ (0xa7, pure f64x2_mul)
    ∷ (0x97, pure f32x4_sqrt)
    ∷ (0xa2, pure f64x2_sqrt)
    ∷ (0xaf, pure f32x4_convert_s_i32x4)
    ∷ (0xb0, pure f32x4_convert_u_i32x4)
    ∷ (0xb1, pure f64x2_convert_s_i64x2)
    ∷ (0xb2, pure f64x2_convert_u_i64x2)
    ∷ (0xab, pure i32x4_trunc_s_f32x4_sat)
    ∷ (0xac, pure i32x4_trunc_u_f32x4_sat)
    ∷ (0xad, pure i64x2_trunc_s_f64x2_sat)
    ∷ (0xae, pure i64x2_trunc_u_f64x2_sat)
    ∷ []

unfoldable pub simd_of : ℕ → Reader Instruction
unfolding choose
simd_of val = choose val simd (fail (unknown_simd_opcode val))

unfoldable pub deserialize_simd : Reader Instruction
unfolding simd_of
deserialize_simd = do val ← VarUint32.deserialize; simd_of val
