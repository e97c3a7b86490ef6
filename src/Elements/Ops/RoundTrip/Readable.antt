-- ===== src/Elements/Ops/RoundTrip/Readable.antt =====
-- The instructions that are read back.
use parity_wasm.Base.{length, ◌≡◌, ◌≢◌, ◌<◌, ◌^◌, All}
use parity_wasm.Elements.Types.{value, v128}
use parity_wasm.Elements.Primitives.VarUint32
use parity_wasm.Elements.Primitives.VarInt32
use parity_wasm.Elements.Primitives.VarInt64
use parity_wasm.Elements.Ops.{
  Instruction, block, loop, if_op, br, br_if, br_table, call, call_indirect, get_local, set_local,
  tee_local, get_global, set_global, i32_load, i64_load, f32_load, f64_load, i32_load8_s,
  i32_load8_u, i32_load16_s, i32_load16_u, i64_load8_s, i64_load8_u, i64_load16_s, i64_load16_u,
  i64_load32_s, i64_load32_u, i32_store, i64_store, f32_store, f64_store, i32_store8, i32_store16,
  i64_store8, i64_store16, i64_store32, current_memory, grow_memory, i32_const, i64_const,
  f32_const, f64_const, atomic_wake, i32_atomic_wait, i64_atomic_wait, i32_atomic_load,
  i64_atomic_load, i32_atomic_load8u, i32_atomic_load16u, i64_atomic_load8u, i64_atomic_load16u,
  i64_atomic_load32u, i32_atomic_store, i64_atomic_store, i32_atomic_store8u, i32_atomic_store16u,
  i64_atomic_store8u, i64_atomic_store16u, i64_atomic_store32u, i32_atomic_rmw_add,
  i64_atomic_rmw_add, i32_atomic_rmw_add8u, i32_atomic_rmw_add16u, i64_atomic_rmw_add8u,
  i64_atomic_rmw_add16u, i64_atomic_rmw_add32u, i32_atomic_rmw_sub, i64_atomic_rmw_sub,
  i32_atomic_rmw_sub8u, i32_atomic_rmw_sub16u, i64_atomic_rmw_sub8u, i64_atomic_rmw_sub16u,
  i64_atomic_rmw_sub32u, i32_atomic_rmw_and, i64_atomic_rmw_and, i32_atomic_rmw_and8u,
  i32_atomic_rmw_and16u, i64_atomic_rmw_and8u, i64_atomic_rmw_and16u, i64_atomic_rmw_and32u,
  i32_atomic_rmw_or, i64_atomic_rmw_or, i32_atomic_rmw_or8u, i32_atomic_rmw_or16u,
  i64_atomic_rmw_or8u, i64_atomic_rmw_or16u, i64_atomic_rmw_or32u, i32_atomic_rmw_xor,
  i64_atomic_rmw_xor, i32_atomic_rmw_xor8u, i32_atomic_rmw_xor16u, i64_atomic_rmw_xor8u,
  i64_atomic_rmw_xor16u, i64_atomic_rmw_xor32u, i32_atomic_rmw_xchg, i64_atomic_rmw_xchg,
  i32_atomic_rmw_xchg8u, i32_atomic_rmw_xchg16u, i64_atomic_rmw_xchg8u, i64_atomic_rmw_xchg16u,
  i64_atomic_rmw_xchg32u, i32_atomic_rmw_cmpxchg, i64_atomic_rmw_cmpxchg, i32_atomic_rmw_cmpxchg8u,
  i32_atomic_rmw_cmpxchg16u, i64_atomic_rmw_cmpxchg8u, i64_atomic_rmw_cmpxchg16u,
  i64_atomic_rmw_cmpxchg32u, v128_const, v128_load, v128_store, v8x16_shuffle, memory_init,
  memory_drop, table_init, table_drop,
}

-- What makes an instruction readable: numbers of 32 or 64 bits, a block type other than that of V128,
-- reserved bytes that are 0, sixteen bytes where sixteen are read, and that it is not the `and` of
-- atomic operations.
abbrev pub IsReadable : Instruction → Type 0
IsReadable (block t) = t ≢ value v128
IsReadable (loop t) = t ≢ value v128
IsReadable (if_op t) = t ≢ value v128
IsReadable (br index) = VarUint32.IsU32 index
IsReadable (br_if index) = VarUint32.IsU32 index
IsReadable (br_table t) =
    (length t.table < 2 ^ 32) × All VarUint32.IsU32 t.table × VarUint32.IsU32 t.default
IsReadable (call index) = VarUint32.IsU32 index
IsReadable (call_indirect index reserved) = VarUint32.IsU32 index × (reserved ≡ 0)
IsReadable (get_local index) = VarUint32.IsU32 index
IsReadable (set_local index) = VarUint32.IsU32 index
IsReadable (tee_local index) = VarUint32.IsU32 index
IsReadable (get_global index) = VarUint32.IsU32 index
IsReadable (set_global index) = VarUint32.IsU32 index
IsReadable (i32_load flags offset) = VarUint32.IsU32 flags × VarUint32.IsU32 offset
IsReadable (i64_load flags offset) = VarUint32.IsU32 flags × VarUint32.IsU32 offset
IsReadable (f32_load flags offset) = VarUint32.IsU32 flags × VarUint32.IsU32 offset
IsReadable (f64_load flags offset) = VarUint32.IsU32 flags × VarUint32.IsU32 offset
IsReadable (i32_load8_s flags offset) = VarUint32.IsU32 flags × VarUint32.IsU32 offset
IsReadable (i32_load8_u flags offset) = VarUint32.IsU32 flags × VarUint32.IsU32 offset
IsReadable (i32_load16_s flags offset) = VarUint32.IsU32 flags × VarUint32.IsU32 offset
IsReadable (i32_load16_u flags offset) = VarUint32.IsU32 flags × VarUint32.IsU32 offset
IsReadable (i64_load8_s flags offset) = VarUint32.IsU32 flags × VarUint32.IsU32 offset
IsReadable (i64_load8_u flags offset) = VarUint32.IsU32 flags × VarUint32.IsU32 offset
IsReadable (i64_load16_s flags offset) = VarUint32.IsU32 flags × VarUint32.IsU32 offset
IsReadable (i64_load16_u flags offset) = VarUint32.IsU32 flags × VarUint32.IsU32 offset
IsReadable (i64_load32_s flags offset) = VarUint32.IsU32 flags × VarUint32.IsU32 offset
IsReadable (i64_load32_u flags offset) = VarUint32.IsU32 flags × VarUint32.IsU32 offset
IsReadable (i32_store flags offset) = VarUint32.IsU32 flags × VarUint32.IsU32 offset
IsReadable (i64_store flags offset) = VarUint32.IsU32 flags × VarUint32.IsU32 offset
IsReadable (f32_store flags offset) = VarUint32.IsU32 flags × VarUint32.IsU32 offset
IsReadable (f64_store flags offset) = VarUint32.IsU32 flags × VarUint32.IsU32 offset
IsReadable (i32_store8 flags offset) = VarUint32.IsU32 flags × VarUint32.IsU32 offset
IsReadable (i32_store16 flags offset) = VarUint32.IsU32 flags × VarUint32.IsU32 offset
IsReadable (i64_store8 flags offset) = VarUint32.IsU32 flags × VarUint32.IsU32 offset
IsReadable (i64_store16 flags offset) = VarUint32.IsU32 flags × VarUint32.IsU32 offset
IsReadable (i64_store32 flags offset) = VarUint32.IsU32 flags × VarUint32.IsU32 offset
IsReadable (current_memory flag) = flag ≡ 0
IsReadable (grow_memory flag) = flag ≡ 0
IsReadable (i32_const n) = VarInt32.IsI32 n
IsReadable (i64_const n) = VarInt64.IsI64 n
IsReadable (f32_const n) = n < 2 ^ 32
IsReadable (f64_const n) = n < 2 ^ 64
IsReadable (atomic_wake mem) = VarUint32.IsU32 mem.offset
IsReadable (i32_atomic_wait mem) = VarUint32.IsU32 mem.offset
IsReadable (i64_atomic_wait mem) = VarUint32.IsU32 mem.offset
IsReadable (i32_atomic_load mem) = VarUint32.IsU32 mem.offset
IsReadable (i64_atomic_load mem) = VarUint32.IsU32 mem.offset
IsReadable (i32_atomic_load8u mem) = VarUint32.IsU32 mem.offset
IsReadable (i32_atomic_load16u mem) = VarUint32.IsU32 mem.offset
IsReadable (i64_atomic_load8u mem) = VarUint32.IsU32 mem.offset
IsReadable (i64_atomic_load16u mem) = VarUint32.IsU32 mem.offset
IsReadable (i64_atomic_load32u mem) = VarUint32.IsU32 mem.offset
IsReadable (i32_atomic_store mem) = VarUint32.IsU32 mem.offset
IsReadable (i64_atomic_store mem) = VarUint32.IsU32 mem.offset
IsReadable (i32_atomic_store8u mem) = VarUint32.IsU32 mem.offset
IsReadable (i32_atomic_store16u mem) = VarUint32.IsU32 mem.offset
IsReadable (i64_atomic_store8u mem) = VarUint32.IsU32 mem.offset
IsReadable (i64_atomic_store16u mem) = VarUint32.IsU32 mem.offset
IsReadable (i64_atomic_store32u mem) = VarUint32.IsU32 mem.offset
IsReadable (i32_atomic_rmw_add mem) = VarUint32.IsU32 mem.offset
IsReadable (i64_atomic_rmw_add mem) = VarUint32.IsU32 mem.offset
IsReadable (i32_atomic_rmw_add8u mem) = VarUint32.IsU32 mem.offset
IsReadable (i32_atomic_rmw_add16u mem) = VarUint32.IsU32 mem.offset
IsReadable (i64_atomic_rmw_add8u mem) = VarUint32.IsU32 mem.offset
IsReadable (i64_atomic_rmw_add16u mem) = VarUint32.IsU32 mem.offset
IsReadable (i64_atomic_rmw_add32u mem) = VarUint32.IsU32 mem.offset
IsReadable (i32_atomic_rmw_sub mem) = VarUint32.IsU32 mem.offset
IsReadable (i64_atomic_rmw_sub mem) = VarUint32.IsU32 mem.offset
IsReadable (i32_atomic_rmw_sub8u mem) = VarUint32.IsU32 mem.offset
IsReadable (i32_atomic_rmw_sub16u mem) = VarUint32.IsU32 mem.offset
IsReadable (i64_atomic_rmw_sub8u mem) = VarUint32.IsU32 mem.offset
IsReadable (i64_atomic_rmw_sub16u mem) = VarUint32.IsU32 mem.offset
IsReadable (i64_atomic_rmw_sub32u mem) = VarUint32.IsU32 mem.offset
IsReadable (i32_atomic_rmw_and mem) = ⊥
IsReadable (i64_atomic_rmw_and mem) = ⊥
IsReadable (i32_atomic_rmw_and8u mem) = ⊥
IsReadable (i32_atomic_rmw_and16u mem) = ⊥
IsReadable (i64_atomic_rmw_and8u mem) = ⊥
IsReadable (i64_atomic_rmw_and16u mem) = ⊥
IsReadable (i64_atomic_rmw_and32u mem) = ⊥
IsReadable (i32_atomic_rmw_or mem) = VarUint32.IsU32 mem.offset
IsReadable (i64_atomic_rmw_or mem) = VarUint32.IsU32 mem.offset
IsReadable (i32_atomic_rmw_or8u mem) = VarUint32.IsU32 mem.offset
IsReadable (i32_atomic_rmw_or16u mem) = VarUint32.IsU32 mem.offset
IsReadable (i64_atomic_rmw_or8u mem) = VarUint32.IsU32 mem.offset
IsReadable (i64_atomic_rmw_or16u mem) = VarUint32.IsU32 mem.offset
IsReadable (i64_atomic_rmw_or32u mem) = VarUint32.IsU32 mem.offset
IsReadable (i32_atomic_rmw_xor mem) = VarUint32.IsU32 mem.offset
IsReadable (i64_atomic_rmw_xor mem) = VarUint32.IsU32 mem.offset
IsReadable (i32_atomic_rmw_xor8u mem) = VarUint32.IsU32 mem.offset
IsReadable (i32_atomic_rmw_xor16u mem) = VarUint32.IsU32 mem.offset
IsReadable (i64_atomic_rmw_xor8u mem) = VarUint32.IsU32 mem.offset
IsReadable (i64_atomic_rmw_xor16u mem) = VarUint32.IsU32 mem.offset
IsReadable (i64_atomic_rmw_xor32u mem) = VarUint32.IsU32 mem.offset
IsReadable (i32_atomic_rmw_xchg mem) = VarUint32.IsU32 mem.offset
IsReadable (i64_atomic_rmw_xchg mem) = VarUint32.IsU32 mem.offset
IsReadable (i32_atomic_rmw_xchg8u mem) = VarUint32.IsU32 mem.offset
IsReadable (i32_atomic_rmw_xchg16u mem) = VarUint32.IsU32 mem.offset
IsReadable (i64_atomic_rmw_xchg8u mem) = VarUint32.IsU32 mem.offset
IsReadable (i64_atomic_rmw_xchg16u mem) = VarUint32.IsU32 mem.offset
IsReadable (i64_atomic_rmw_xchg32u mem) = VarUint32.IsU32 mem.offset
IsReadable (i32_atomic_rmw_cmpxchg mem) = VarUint32.IsU32 mem.offset
IsReadable (i64_atomic_rmw_cmpxchg mem) = VarUint32.IsU32 mem.offset
IsReadable (i32_atomic_rmw_cmpxchg8u mem) = VarUint32.IsU32 mem.offset
IsReadable (i32_atomic_rmw_cmpxchg16u mem) = VarUint32.IsU32 mem.offset
IsReadable (i64_atomic_rmw_cmpxchg8u mem) = VarUint32.IsU32 mem.offset
IsReadable (i64_atomic_rmw_cmpxchg16u mem) = VarUint32.IsU32 mem.offset
IsReadable (i64_atomic_rmw_cmpxchg32u mem) = VarUint32.IsU32 mem.offset
IsReadable (v128_const buf) = length buf ≡ 16
IsReadable (v128_load mem) = VarUint32.IsU32 mem.offset
IsReadable (v128_store mem) = VarUint32.IsU32 mem.offset
IsReadable (v8x16_shuffle buf) = length buf ≡ 16
IsReadable (memory_init seg) = VarUint32.IsU32 seg
IsReadable (memory_drop seg) = VarUint32.IsU32 seg
IsReadable (table_init seg) = VarUint32.IsU32 seg
IsReadable (table_drop seg) = VarUint32.IsU32 seg
IsReadable _ = Unit
