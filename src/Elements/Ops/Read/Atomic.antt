-- ===== src/Elements/Ops/Read/Atomic.antt =====
-- src/elements/ops.rs: `deserialize_atomic`.
use parity_wasm.Base.{ℕ, List, [], ◌∷◌}
use parity_wasm.Elements.Error.{unknown_opcode}
use parity_wasm.Elements.Codec.{Reader, ◌>>=◌, pure, fail}
use parity_wasm.Elements.Primitives.Uint8
use parity_wasm.Elements.Ops.{
  MemArg, Instruction, atomic_wake, i32_atomic_wait, i64_atomic_wait, i32_atomic_load,
  i64_atomic_load, i32_atomic_load8u, i32_atomic_load16u, i64_atomic_load8u, i64_atomic_load16u,
  i64_atomic_load32u, i32_atomic_store, i64_atomic_store, i32_atomic_store8u, i32_atomic_store16u,
  i64_atomic_store8u, i64_atomic_store16u, i64_atomic_store32u, i32_atomic_rmw_add,
  i64_atomic_rmw_add, i32_atomic_rmw_add8u, i32_atomic_rmw_add16u, i64_atomic_rmw_add8u,
  i64_atomic_rmw_add16u, i64_atomic_rmw_add32u, i32_atomic_rmw_sub, i64_atomic_rmw_sub,
  i32_atomic_rmw_sub8u, i32_atomic_rmw_sub16u, i64_atomic_rmw_sub8u, i64_atomic_rmw_sub16u,
  i64_atomic_rmw_sub32u, i32_atomic_rmw_or, i64_atomic_rmw_or, i32_atomic_rmw_or8u,
  i32_atomic_rmw_or16u, i64_atomic_rmw_or8u, i64_atomic_rmw_or16u, i64_atomic_rmw_or32u,
  i32_atomic_rmw_xor, i64_atomic_rmw_xor, i32_atomic_rmw_xor8u, i32_atomic_rmw_xor16u,
  i64_atomic_rmw_xor8u, i64_atomic_rmw_xor16u, i64_atomic_rmw_xor32u, i32_atomic_rmw_xchg,
  i64_atomic_rmw_xchg, i32_atomic_rmw_xchg8u, i32_atomic_rmw_xchg16u, i64_atomic_rmw_xchg8u,
  i64_atomic_rmw_xchg16u, i64_atomic_rmw_xchg32u, i32_atomic_rmw_cmpxchg, i64_atomic_rmw_cmpxchg,
  i32_atomic_rmw_cmpxchg8u, i32_atomic_rmw_cmpxchg16u, i64_atomic_rmw_cmpxchg8u,
  i64_atomic_rmw_cmpxchg16u, i64_atomic_rmw_cmpxchg32u,
}
use parity_wasm.Elements.Ops.Read.Operands.{Arm, choose, deserialize_mem_arg}

abbrev pub atomics : MemArg → List Arm
atomics mem =
    (0x00, pure (atomic_wake mem))
    ∷ (0x01, pure (i32_atomic_wait mem))
    ∷ (0x02, pure (i64_atomic_wait mem))
    ∷ (0x10, pure (i32_atomic_load mem))
    ∷ (0x11, pure (i64_atomic_load mem))
    ∷ (0x12, pure (i32_atomic_load8u mem))
    ∷ (0x13, pure (i32_atomic_load16u mem))
    ∷ (0x14, pure (i64_atomic_load8u mem))
    ∷ (0x15, pure (i64_atomic_load16u mem))
    ∷ (0x16, pure (i64_atomic_load32u mem))
    ∷ (0x17, pure (i32_atomic_store mem))
    ∷ (0x18, pure (i64_atomic_store mem))
    ∷ (0x19, pure (i32_atomic_store8u mem))
    ∷ (0x1a, pure (i32_atomic_store16u mem))
    ∷ (0x1b, pure (i64_atomic_store8u mem))
    ∷ (0x1c, pure (i64_atomic_store16u mem))
    ∷ (0x1d, pure (i64_atomic_store32u mem))
    ∷ (0x1e, pure (i32_atomic_rmw_add mem))
    ∷ (0x1f, pure (i64_atomic_rmw_add mem))
    ∷ (0x20, pure (i32_atomic_rmw_add8u mem))
    ∷ (0x21, pure (i32_atomic_rmw_add16u mem))
    ∷ (0x22, pure (i64_atomic_rmw_add8u mem))
    ∷ (0x23, pure (i64_atomic_rmw_add16u mem))
    ∷ (0x24, pure (i64_atomic_rmw_add32u mem))
    ∷ (0x25, pure (i32_atomic_rmw_sub mem))
    ∷ (0x26, pure (i64_atomic_rmw_sub mem))
    ∷ (0x27, pure (i32_atomic_rmw_sub8u mem))
    ∷ (0x28, pure (i32_atomic_rmw_sub16u mem))
    ∷ (0x29, pure (i64_atomic_rmw_sub8u mem))
    ∷ (0x2a, pure (i64_atomic_rmw_sub16u mem))
    ∷ (0x2b, pure (i64_atomic_rmw_sub32u mem))
    ∷ (0x33, pure (i32_atomic_rmw_or mem))
    ∷ (0x34, pure (i64_atomic_rmw_or mem))
    ∷ (0x35, pure (i32_atomic_rmw_or8u mem))
    ∷ (0x36, pure (i32_atomic_rmw_or16u mem))
    ∷ (0x37, pure (i64_atomic_rmw_or8u mem))
    ∷ (0x38, pure (i64_atomic_rmw_or16u mem))
    ∷ (0x39, pure (i64_atomic_rmw_or32u mem))
    ∷ (0x3a, pure (i32_atomic_rmw_xor mem))
    ∷ (0x3b, pure (i64_atomic_rmw_xor mem))
    ∷ (0x3c, pure (i32_atomic_rmw_xor8u mem))
    ∷ (0x3d, pure (i32_atomic_rmw_xor16u mem))
    ∷ (0x3e, pure (i64_atomic_rmw_xor8u mem))
    ∷ (0x3f, pure (i64_atomic_rmw_xor16u mem))
    ∷ (0x40, pure (i64_atomic_rmw_xor32u mem))
    ∷ (0x41, pure (i32_atomic_rmw_xchg mem))
    ∷ (0x42, pure (i64_atomic_rmw_xchg mem))
    ∷ (0x43, pure (i32_atomic_rmw_xchg8u mem))
    ∷ (0x44, pure (i32_atomic_rmw_xchg16u mem))
    ∷ (0x45, pure (i64_atomic_rmw_xchg8u mem))
    ∷ (0x46, pure (i64_atomic_rmw_xchg16u mem))
    ∷ (0x47, pure (i64_atomic_rmw_xchg32u mem))
    ∷ (0x48, pure (i32_atomic_rmw_cmpxchg mem))
    ∷ (0x49, pure (i64_atomic_rmw_cmpxchg mem))
    ∷ (0x4a, pure (i32_atomic_rmw_cmpxchg8u mem))
    ∷ (0x4b, pure (i32_atomic_rmw_cmpxchg16u mem))
    ∷ (0x4c, pure (i64_atomic_rmw_cmpxchg8u mem))
    ∷ (0x4d, pure (i64_atomic_rmw_cmpxchg16u mem))
    ∷ (0x4e, pure (i64_atomic_rmw_cmpxchg32u mem))
    ∷ []

unfoldable pub atomic_of : ℕ → MemArg → Reader Instruction
unfolding choose
atomic_of val mem = choose val (atomics mem) (fail (unknown_opcode val))

unfoldable pub deserialize_atomic : Reader Instruction
unfolding atomic_of
deserialize_atomic = do val ← Uint8.deserialize; mem ← deserialize_mem_arg; atomic_of val mem
