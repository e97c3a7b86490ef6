-- ===== src/Elements/Ops/RoundTrip/Atomics.antt =====
-- The `and` of atomic operations is written, and not read.
use parity_wasm.Base.{ℕ, ◌≡◌, refl, [], ◌∷◌, ◌++◌, ok, err, subst}
use parity_wasm.Elements.Error.{unknown_opcode}
use parity_wasm.Elements.Codec.{Bytes, Written, ◌⊹◌, Restores, after-eq-ok}
use parity_wasm.Elements.Primitives.ByteOrder.{LittleEndian}
use parity_wasm.Elements.Primitives.Uint8
use parity_wasm.Elements.Primitives.VarUint32
use parity_wasm.Elements.Ops.{
  MemArg, Instruction, i32_atomic_rmw_and, i64_atomic_rmw_and, i32_atomic_rmw_and8u,
  i32_atomic_rmw_and16u, i64_atomic_rmw_and8u, i64_atomic_rmw_and16u, i64_atomic_rmw_and32u,
}
use parity_wasm.Elements.Ops.Read.{deserialize, instruction_of}
use parity_wasm.Elements.Ops.Read.Operands.{choose, deserialize_mem_arg}
use parity_wasm.Elements.Ops.Read.Atomic.{deserialize_atomic, atomic_of}
use parity_wasm.Elements.Ops.Write.{serialize, serialize_mem_arg}

pub data IsAtomicAnd : Instruction → Type 0 where
  full_32 : {mem : MemArg} → IsAtomicAnd (i32_atomic_rmw_and mem)
  full_64 : {mem : MemArg} → IsAtomicAnd (i64_atomic_rmw_and mem)
  byte_32 : {mem : MemArg} → IsAtomicAnd (i32_atomic_rmw_and8u mem)
  half_32 : {mem : MemArg} → IsAtomicAnd (i32_atomic_rmw_and16u mem)
  byte_64 : {mem : MemArg} → IsAtomicAnd (i64_atomic_rmw_and8u mem)
  half_64 : {mem : MemArg} → IsAtomicAnd (i64_atomic_rmw_and16u mem)
  word_64 : {mem : MemArg} → IsAtomicAnd (i64_atomic_rmw_and32u mem)

module _ (le : LittleEndian) where
  unread :
      {i : Instruction} (code : ℕ) (src : Bytes) {rest : Bytes}
      → ((m : MemArg) (s : Bytes) → atomic_of code m s ≡ err (unknown_opcode code))
      → deserialize le (0xfe ∷ code ∷ src) ≡ ok (i, rest)
      → ⊥
  unfolding deserialize instruction_of choose deserialize_atomic Uint8.deserialize
  unread code src unknown h =
      let (m, s, _, e) = after-eq-ok (deserialize_mem_arg src) _ h in cc (unknown m s, e)

  unrestored :
      {i : Instruction} (code : ℕ) (mem : MemArg)
      → ((m : MemArg) (s : Bytes) → atomic_of code m s ≡ err (unknown_opcode code))
      → Restores (ok (0xfe ∷ code ∷ []) ⊹ serialize_mem_arg mem) (deserialize le) i
      → ⊥
  unfolding VarUint32.serialize Uint8.serialize
  unrestored {i} code mem unknown r = go r.bytes _ r.written (r.reads [])
    where
      go :
          (bs src : Bytes)
          → ◌≡◌ {A = Written} (ok (0xfe ∷ code ∷ src)) (ok bs)
          → deserialize le (bs ++ []) ≡ ok (i, [])
          → ⊥
      go bs src w h =
          let same : bs ≡ 0xfe ∷ code ∷ src = cc w in
          unread code (src ++ []) unknown
            (subst (λ ks. deserialize le (ks ++ []) ≡ ok (i, [])) same h)

  -- An `and` of atomic operations, of any width, is not read back from what was written.
  pub atomic_and_refused :
      (i : Instruction) → IsAtomicAnd i → Restores (serialize le i) (deserialize le) i → ⊥
  unfolding serialize atomic_of choose
  atomic_and_refused _ (full_32 {mem = m}) = unrestored 0x2c m (λ _ _. refl)
  atomic_and_refused _ (full_64 {mem = m}) = unrestored 0x2d m (λ _ _. refl)
  atomic_and_refused _ (byte_32 {mem = m}) = unrestored 0x2e m (λ _ _. refl)
  atomic_and_refused _ (half_32 {mem = m}) = unrestored 0x2f m (λ _ _. refl)
  atomic_and_refused _ (byte_64 {mem = m}) = unrestored 0x30 m (λ _ _. refl)
  atomic_and_refused _ (half_64 {mem = m}) = unrestored 0x31 m (λ _ _. refl)
  atomic_and_refused _ (word_64 {mem = m}) = unrestored 0x32 m (λ _ _. refl)
