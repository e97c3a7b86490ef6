-- ===== src/Elements/Ops/Read/Numeric.antt =====
-- src/elements/ops.rs: the arms of `Instruction::deserialize` for arithmetic.
use parity_wasm.Base.{List, [], ◌∷◌}
use parity_wasm.Elements.Codec.{pure}
use parity_wasm.Elements.Ops.{
  i32_eqz, i32_eq, i32_ne, i32_lt_s, i32_lt_u, i32_gt_s, i32_gt_u, i32_le_s, i32_le_u, i32_ge_s,
  i32_ge_u, i64_eqz, i64_eq, i64_ne, i64_lt_s, i64_lt_u, i64_gt_s, i64_gt_u, i64_le_s, i64_le_u,
  i64_ge_s, i64_ge_u, f32_eq, f32_ne, f32_lt, f32_gt, f32_le, f32_ge, f64_eq, f64_ne, f64_lt,
  f64_gt, f64_le, f64_ge, i32_clz, i32_ctz, i32_popcnt, i32_add, i32_sub, i32_mul, i32_div_s,
  i32_div_u, i32_rem_s, i32_rem_u, i32_and, i32_or, i32_xor, i32_shl, i32_shr_s, i32_shr_u,
  i32_rotl, i32_rotr, i64_clz, i64_ctz, i64_popcnt, i64_add, i64_sub, i64_mul, i64_div_s, i64_div_u,
  i64_rem_s, i64_rem_u, i64_and, i64_or, i64_xor, i64_shl, i64_shr_s, i64_shr_u, i64_rotl, i64_rotr,
  f32_abs, f32_neg, f32_ceil, f32_floor, f32_trunc, f32_nearest, f32_sqrt, f32_add, f32_sub,
  f32_mul, f32_div, f32_min, f32_max, f32_copysign, f64_abs, f64_neg, f64_ceil, f64_floor,
  f64_trunc, f64_nearest, f64_sqrt, f64_add, f64_sub, f64_mul, f64_div, f64_min, f64_max,
  f64_copysign, i32_wrap_i64, i32_trunc_s_f32, i32_trunc_u_f32, i32_trunc_s_f64, i32_trunc_u_f64,
  i64_extend_s_i32, i64_extend_u_i32, i64_trunc_s_f32, i64_trunc_u_f32, i64_trunc_s_f64,
  i64_trunc_u_f64, f32_convert_s_i32, f32_convert_u_i32, f32_convert_s_i64, f32_convert_u_i64,
  f32_demote_f64, f64_convert_s_i32, f64_convert_u_i32, f64_convert_s_i64, f64_convert_u_i64,
  f64_promote_f32, i32_reinterpret_f32, i64_reinterpret_f64, f32_reinterpret_i32,
  f64_reinterpret_i64, i32_extend8_s, i32_extend16_s, i64_extend8_s, i64_extend16_s, i64_extend32_s,
}
use parity_wasm.Elements.Ops.Read.Operands.{Arm}

abbrev pub numeric : List Arm
numeric =
    (0x45, pure i32_eqz)
    ∷ (0x46, pure i32_eq)
    ∷ (0x47, pure i32_ne)
    ∷ (0x48, pure i32_lt_s)
    ∷ (0x49, pure i32_lt_u)
    ∷ (0x4a, pure i32_gt_s)
    ∷ (0x4b, pure i32_gt_u)
    ∷ (0x4c, pure i32_le_s)
    ∷ (0x4d, pure i32_le_u)
    ∷ (0x4e, pure i32_ge_s)
    ∷ (0x4f, pure i32_ge_u)
    ∷ (0x50, pure i64_eqz)
    ∷ (0x51, pure i64_eq)
    ∷ (0x52, pure i64_ne)
    ∷ (0x53, pure i64_lt_s)
    ∷ (0x54, pure i64_lt_u)
    ∷ (0x55, pure i64_gt_s)
    ∷ (0x56, pure i64_gt_u)
    ∷ (0x57, pure i64_le_s)
    ∷ (0x58, pure i64_le_u)
    ∷ (0x59, pure i64_ge_s)
    ∷ (0x5a, pure i64_ge_u)
    ∷ (0x5b, pure f32_eq)
    ∷ (0x5c, pure f32_ne)
    ∷ (0x5d, pure f32_lt)
    ∷ (0x5e, pure f32_gt)
    ∷ (0x5f, pure f32_le)
    ∷ (0x60, pure f32_ge)
    ∷ (0x61, pure f64_eq)
    ∷ (0x62, pure f64_ne)
    ∷ (0x63, pure f64_lt)
    ∷ (0x64, pure f64_gt)
    ∷ (0x65, pure f64_le)
    ∷ (0x66, pure f64_ge)
    ∷ (0x67, pure i32_clz)
    ∷ (0x68, pure i32_ctz)
    ∷ (0x69, pure i32_popcnt)
    ∷ (0x6a, pure i32_add)
    ∷ (0x6b, pure i32_sub)
    ∷ (0x6c, pure i32_mul)
    ∷ (0x6d, pure i32_div_s)
    ∷ (0x6e, pure i32_div_u)
    ∷ (0x6f, pure i32_rem_s)
    ∷ (0x70, pure i32_rem_u)
    ∷ (0x71, pure i32_and)
    ∷ (0x72, pure i32_or)
    ∷ (0x73, pure i32_xor)
    ∷ (0x74, pure i32_shl)
    ∷ (0x75, pure i32_shr_s)
    ∷ (0x76, pure i32_shr_u)
    ∷ (0x77, pure i32_rotl)
    ∷ (0x78, pure i32_rotr)
    ∷ (0x79, pure i64_clz)
    ∷ (0x7a, pure i64_ctz)
    ∷ (0x7b, pure i64_popcnt)
    ∷ (0x7c, pure i64_add)
    ∷ (0x7d, pure i64_sub)
    ∷ (0x7e, pure i64_mul)
    ∷ (0x7f, pure i64_div_s)
    ∷ (0x80, pure i64_div_u)
    ∷ (0x81, pure i64_rem_s)
    ∷ (0x82, pure i64_rem_u)
    ∷ (0x83, pure i64_and)
    ∷ (0x84, pure i64_or)
    ∷ (0x85, pure i64_xor)
    ∷ (0x86, pure i64_shl)
    ∷ (0x87, pure i64_shr_s)
    ∷ (0x88, pure i64_shr_u)
    ∷ (0x89, pure i64_rotl)
    ∷ (0x8a, pure i64_rotr)
    ∷ (0x8b, pure f32_abs)
    ∷ (0x8c, pure f32_neg)
    ∷ (0x8d, pure f32_ceil)
    ∷ (0x8e, pure f32_floor)
    ∷ (0x8f, pure f32_trunc)
    ∷ (0x90, pure f32_nearest)
    ∷ (0x91, pure f32_sqrt)
    ∷ (0x92, pure f32_add)
    ∷ (0x93, pure f32_sub)
    ∷ (0x94, pure f32_mul)
    ∷ (0x95, pure f32_div)
    ∷ (0x96, pure f32_min)
    ∷ (0x97, pure f32_max)
    ∷ (0x98, pure f32_copysign)
    ∷ (0x99, pure f64_abs)
    ∷ (0x9a, pure f64_neg)
    ∷ (0x9b, pure f64_ceil)
    ∷ (0x9c, pure f64_floor)
    ∷ (0x9d, pure f64_trunc)
    ∷ (0x9e, pure f64_nearest)
    ∷ (0x9f, pure f64_sqrt)
    ∷ (0xa0, pure f64_add)
    ∷ (0xa1, pure f64_sub)
    ∷ (0xa2, pure f64_mul)
    ∷ (0xa3, pure f64_div)
    ∷ (0xa4, pure f64_min)
    ∷ (0xa5, pure f64_max)
    ∷ (0xa6, pure f64_copysign)
    ∷ (0xa7, pure i32_wrap_i64)
    ∷ (0xa8, pure i32_trunc_s_f32)
    ∷ (0xa9, pure i32_trunc_u_f32)
    ∷ (0xaa, pure i32_trunc_s_f64)
    ∷ (0xab, pure i32_trunc_u_f64)
    ∷ (0xac, pure i64_extend_s_i32)
    ∷ (0xad, pure i64_extend_u_i32)
    ∷ (0xae, pure i64_trunc_s_f32)
    ∷ (0xaf, pure i64_trunc_u_f32)
    ∷ (0xb0, pure i64_trunc_s_f64)
    ∷ (0xb1, pure i64_trunc_u_f64)
    ∷ (0xb2, pure f32_convert_s_i32)
    ∷ (0xb3, pure f32_convert_u_i32)
    ∷ (0xb4, pure f32_convert_s_i64)
    ∷ (0xb5, pure f32_convert_u_i64)
    ∷ (0xb6, pure f32_demote_f64)
    ∷ (0xb7, pure f64_convert_s_i32)
    ∷ (0xb8, pure f64_convert_u_i32)
    ∷ (0xb9, pure f64_convert_s_i64)
    ∷ (0xba, pure f64_convert_u_i64)
    ∷ (0xbb, pure f64_promote_f32)
    ∷ (0xbc, pure i32_reinterpret_f32)
    ∷ (0xbd, pure i64_reinterpret_f64)
    ∷ (0xbe, pure f32_reinterpret_i32)
    ∷ (0xbf, pure f64_reinterpret_i64)
    ∷ (0xc0, pure i32_extend8_s)
    ∷ (0xc1, pure i32_extend16_s)
    ∷ (0xc2, pure i64_extend8_s)
    ∷ (0xc3, pure i64_extend16_s)
    ∷ (0xc4, pure i64_extend32_s)
    ∷ []
