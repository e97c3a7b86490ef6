-- ===== src/Elements/Ops.antt =====
-- src/elements/ops.rs: the instructions.
pub mod Read
pub mod Write
pub mod RoundTrip
pub mod Blocks
use parity_wasm.Base.{ℕ, List, Bool, true, false}
use parity_wasm.Base.Int.{ℤ}
use parity_wasm.Elements.Codec.{Bytes}
use parity_wasm.Elements.Types.{BlockType}

pub record MemArg : Type 0 where
  pub align : ℕ
  pub offset : ℕ

pub record BrTableData : Type 0 where
  pub table : List ℕ
  pub default : ℕ

-- `If`, `Else` and `End` have `_op` in their names, two of which are words of antt.
pub data Instruction : Type 0 where
  unreachable nop : Instruction
  block loop if_op : BlockType → Instruction
  else_op end_op : Instruction
  br br_if : ℕ → Instruction
  br_table : BrTableData → Instruction
  return : Instruction
  call : ℕ → Instruction
  call_indirect : ℕ → ℕ → Instruction
  drop select : Instruction
  get_local set_local tee_local get_global set_global : ℕ → Instruction
  i32_load i64_load f32_load f64_load i32_load8_s i32_load8_u i32_load16_s : ℕ → ℕ → Instruction
  i32_load16_u i64_load8_s i64_load8_u i64_load16_s i64_load16_u : ℕ → ℕ → Instruction
  i64_load32_s i64_load32_u i32_store i64_store f32_store f64_store : ℕ → ℕ → Instruction
  i32_store8 i32_store16 i64_store8 i64_store16 i64_store32 : ℕ → ℕ → Instruction
  current_memory grow_memory : ℕ → Instruction
  i32_const i64_const : ℤ → Instruction
  f32_const f64_const : ℕ → Instruction
  i32_eqz i32_eq i32_ne i32_lt_s i32_lt_u i32_gt_s i32_gt_u i32_le_s i32_le_u : Instruction
  i32_ge_s i32_ge_u i64_eqz : Instruction
  i64_eq i64_ne i64_lt_s i64_lt_u i64_gt_s i64_gt_u i64_le_s i64_le_u : Instruction
  i64_ge_s i64_ge_u f32_eq f32_ne : Instruction
  f32_lt f32_gt f32_le f32_ge f64_eq f64_ne f64_lt f64_gt f64_le f64_ge : Instruction
  i32_clz i32_ctz : Instruction
  i32_popcnt i32_add i32_sub i32_mul i32_div_s i32_div_u i32_rem_s i32_rem_u : Instruction
  i32_and i32_or i32_xor i32_shl : Instruction
  i32_shr_s i32_shr_u i32_rotl i32_rotr i64_clz i64_ctz i64_popcnt i64_add : Instruction
  i64_sub i64_mul i64_div_s i64_div_u : Instruction
  i64_rem_s i64_rem_u i64_and i64_or i64_xor i64_shl i64_shr_s i64_shr_u : Instruction
  i64_rotl i64_rotr f32_abs f32_neg : Instruction
  f32_ceil f32_floor f32_trunc f32_nearest f32_sqrt f32_add f32_sub f32_mul : Instruction
  f32_div f32_min f32_max f32_copysign : Instruction
  f64_abs f64_neg f64_ceil f64_floor f64_trunc f64_nearest f64_sqrt f64_add : Instruction
  f64_sub f64_mul f64_div f64_min : Instruction
  f64_max f64_copysign i32_wrap_i64 i32_trunc_s_f32 i32_trunc_u_f32 : Instruction
  i32_trunc_s_f64 i32_trunc_u_f64 i64_extend_s_i32 i64_extend_u_i32 : Instruction
  i64_trunc_s_f32 i64_trunc_u_f32 i64_trunc_s_f64 : Instruction
  i64_trunc_u_f64 f32_convert_s_i32 f32_convert_u_i32 f32_convert_s_i64 : Instruction
  f32_convert_u_i64 f32_demote_f64 f64_convert_s_i32 f64_convert_u_i32 : Instruction
  f64_convert_s_i64 f64_convert_u_i64 f64_promote_f32 i32_reinterpret_f32 : Instruction
  i64_reinterpret_f64 f32_reinterpret_i32 f64_reinterpret_i64 i32_extend8_s : Instruction
  i32_extend16_s i64_extend8_s i64_extend16_s i64_extend32_s : Instruction
  atomic_wake i32_atomic_wait i64_atomic_wait i32_atomic_load i64_atomic_load : MemArg → Instruction
  i32_atomic_load8u i32_atomic_load16u i64_atomic_load8u i64_atomic_load16u : MemArg → Instruction
  i64_atomic_load32u i32_atomic_store i64_atomic_store : MemArg → Instruction
  i32_atomic_store8u i32_atomic_store16u i64_atomic_store8u : MemArg → Instruction
  i64_atomic_store16u i64_atomic_store32u i32_atomic_rmw_add : MemArg → Instruction
  i64_atomic_rmw_add i32_atomic_rmw_add8u i32_atomic_rmw_add16u : MemArg → Instruction
  i64_atomic_rmw_add8u i64_atomic_rmw_add16u i64_atomic_rmw_add32u : MemArg → Instruction
  i32_atomic_rmw_sub i64_atomic_rmw_sub i32_atomic_rmw_sub8u : MemArg → Instruction
  i32_atomic_rmw_sub16u i64_atomic_rmw_sub8u i64_atomic_rmw_sub16u : MemArg → Instruction
  i64_atomic_rmw_sub32u i32_atomic_rmw_and i64_atomic_rmw_and : MemArg → Instruction
  i32_atomic_rmw_and8u i32_atomic_rmw_and16u i64_atomic_rmw_and8u : MemArg → Instruction
  i64_atomic_rmw_and16u i64_atomic_rmw_and32u i32_atomic_rmw_or : MemArg → Instruction
  i64_atomic_rmw_or i32_atomic_rmw_or8u i32_atomic_rmw_or16u : MemArg → Instruction
  i64_atomic_rmw_or8u i64_atomic_rmw_or16u i64_atomic_rmw_or32u : MemArg → Instruction
  i32_atomic_rmw_xor i64_atomic_rmw_xor i32_atomic_rmw_xor8u : MemArg → Instruction
  i32_atomic_rmw_xor16u i64_atomic_rmw_xor8u i64_atomic_rmw_xor16u : MemArg → Instruction
  i64_atomic_rmw_xor32u i32_atomic_rmw_xchg i64_atomic_rmw_xchg : MemArg → Instruction
  i32_atomic_rmw_xchg8u i32_atomic_rmw_xchg16u i64_atomic_rmw_xchg8u : MemArg → Instruction
  i64_atomic_rmw_xchg16u i64_atomic_rmw_xchg32u i32_atomic_rmw_cmpxchg : MemArg → Instruction
  i64_atomic_rmw_cmpxchg i32_atomic_rmw_cmpxchg8u i32_atomic_rmw_cmpxchg16u : MemArg → Instruction
  i64_atomic_rmw_cmpxchg8u i64_atomic_rmw_cmpxchg16u : MemArg → Instruction
  i64_atomic_rmw_cmpxchg32u : MemArg → Instruction
  v128_const : Bytes → Instruction
  v128_load v128_store : MemArg → Instruction
  i8x16_splat i16x8_splat i32x4_splat i64x2_splat f32x4_splat f64x2_splat : Instruction
  i8x16_extract_lane_s i8x16_extract_lane_u i16x8_extract_lane_s : ℕ → Instruction
  i16x8_extract_lane_u i32x4_extract_lane i64x2_extract_lane : ℕ → Instruction
  f32x4_extract_lane f64x2_extract_lane i8x16_replace_lane i16x8_replace_lane : ℕ → Instruction
  i32x4_replace_lane i64x2_replace_lane : ℕ → Instruction
  f32x4_replace_lane f64x2_replace_lane : ℕ → Instruction
  v8x16_shuffle : Bytes → Instruction
  i8x16_add i16x8_add i32x4_add i64x2_add i8x16_sub i16x8_sub i32x4_sub : Instruction
  i64x2_sub i8x16_mul i16x8_mul i32x4_mul i8x16_neg : Instruction
  i16x8_neg i32x4_neg i64x2_neg i8x16_add_saturate_s i8x16_add_saturate_u : Instruction
  i16x8_add_saturate_s i16x8_add_saturate_u i8x16_sub_saturate_s : Instruction
  i8x16_sub_saturate_u i16x8_sub_saturate_s i16x8_sub_saturate_u i8x16_shl : Instruction
  i16x8_shl i32x4_shl i64x2_shl i8x16_shr_s i8x16_shr_u i16x8_shr_s : Instruction
  i16x8_shr_u i32x4_shr_s i32x4_shr_u i64x2_shr_s i64x2_shr_u v128_and : Instruction
  v128_or v128_xor v128_not v128_bitselect i8x16_any_true i16x8_any_true : Instruction
  i32x4_any_true i64x2_any_true i8x16_all_true i16x8_all_true i32x4_all_true : Instruction
  i64x2_all_true : Instruction
  i8x16_eq i16x8_eq i32x4_eq f32x4_eq f64x2_eq i8x16_ne i16x8_ne i32x4_ne : Instruction
  f32x4_ne f64x2_ne i8x16_lt_s i8x16_lt_u : Instruction
  i16x8_lt_s i16x8_lt_u i32x4_lt_s i32x4_lt_u f32x4_lt f64x2_lt i8x16_le_s : Instruction
  i8x16_le_u i16x8_le_s i16x8_le_u i32x4_le_s i32x4_le_u : Instruction
  f32x4_le f64x2_le i8x16_gt_s i8x16_gt_u i16x8_gt_s i16x8_gt_u i32x4_gt_s : Instruction
  i32x4_gt_u f32x4_gt f64x2_gt i8x16_ge_s i8x16_ge_u : Instruction
  i16x8_ge_s i16x8_ge_u i32x4_ge_s i32x4_ge_u f32x4_ge f64x2_ge f32x4_neg : Instruction
  f64x2_neg f32x4_abs f64x2_abs f32x4_min f64x2_min : Instruction
  f32x4_max f64x2_max f32x4_add f64x2_add f32x4_sub f64x2_sub f32x4_div : Instruction
  f64x2_div f32x4_mul f64x2_mul f32x4_sqrt f64x2_sqrt : Instruction
  f32x4_convert_s_i32x4 f32x4_convert_u_i32x4 f64x2_convert_s_i64x2 : Instruction
  f64x2_convert_u_i64x2 i32x4_trunc_s_f32x4_sat i32x4_trunc_u_f32x4_sat : Instruction
  i64x2_trunc_s_f64x2_sat i64x2_trunc_u_f64x2_sat : Instruction
  memory_init memory_drop : ℕ → Instruction
  memory_copy memory_fill : Instruction
  table_init table_drop : ℕ → Instruction
  table_copy : Instruction

unfoldable pub is_block : Instruction → Bool
is_block (block _) = true
is_block (loop _) = true
is_block (if_op _) = true
is_block _ = false

unfoldable pub is_terminal : Instruction → Bool
is_terminal end_op = true
is_terminal _ = false
