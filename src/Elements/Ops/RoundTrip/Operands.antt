-- ===== src/Elements/Ops/RoundTrip/Operands.antt =====
-- Operands and opcodes of several bytes are read back.
use parity_wasm.Base.{ℕ, List, [], ◌∷◌, ok, length, refl, ◌≡◌, ◌<◌, ◌^◌, All}
use parity_wasm.Elements.Codec.{Bytes, ◌>>=◌, Written, ◌⊹◌, Restores, Restores-bind, Restores-map}
use parity_wasm.Elements.Primitives.ByteOrder.{LittleEndian}
use parity_wasm.Elements.Primitives.Uint8
use parity_wasm.Elements.Primitives.VarUint32
use parity_wasm.Elements.Primitives.CountedList
use parity_wasm.Elements.Ops.{MemArg, BrTableData, Instruction, br_table, call_indirect}
use parity_wasm.Elements.Ops.Read.Operands.{
  choose, deserialize_mem_arg, read_access, read_br_table, read_call_indirect,
  read_memory_reference,
}
use parity_wasm.Elements.Ops.Read.Atomic.{deserialize_atomic, atomic_of}
use parity_wasm.Elements.Ops.Read.Simd.{deserialize_simd, simd_of}
use parity_wasm.Elements.Ops.Read.Bulk.{deserialize_bulk, bulk_of}
use parity_wasm.Elements.Ops.Read.{instruction_of, deserialize}
use parity_wasm.Elements.Ops.Write.{serialize_mem_arg, serialize_br_table}

pub mem_arg :
    (mem : MemArg)
    → VarUint32.IsU32 mem.offset
    → Restores (serialize_mem_arg mem) deserialize_mem_arg mem
mem_arg mem h =
    Restores-bind _ (Uint8.Uint8-Restores mem.align)
      (Restores-map _ (VarUint32.serialize_u32-Restores mem.offset h) (λ rest. refl))

pub access-Restores :
    (op : ℕ → ℕ → Instruction) (flags offset : ℕ)
    → VarUint32.IsU32 flags × VarUint32.IsU32 offset
    → Restores
        (VarUint32.serialize flags ⊹ VarUint32.serialize offset)
        (read_access op)
        (op flags offset)
access-Restores op flags offset (h, k) =
    Restores-bind _ (VarUint32.serialize_u32-Restores flags h)
      (Restores-map _ (VarUint32.serialize_u32-Restores offset k) (λ rest. refl))

pub reserved-Restores :
    (op : ℕ → Instruction) (flag : ℕ)
    → flag ≡ 0
    → Restores (Uint8.serialize flag) (read_memory_reference op) (op flag)
reserved-Restores op flag h = Restores-map _ (Uint8.Uint8-Restores flag) (λ rest. rw h refl)

pub call-Restores :
    (index reserved : ℕ)
    → VarUint32.IsU32 index × (reserved ≡ 0)
    → Restores
        (VarUint32.serialize index ⊹ Uint8.serialize reserved)
        read_call_indirect
        (call_indirect index reserved)
call-Restores index reserved (h, k) =
    Restores-bind _ (VarUint32.serialize_u32-Restores index h)
      (Restores-map _ (Uint8.Uint8-Restores reserved) (λ rest. rw k refl))

pub All-Restores :
    (ks : List ℕ)
    → All VarUint32.IsU32 ks
    → All (λ k. Restores (VarUint32.serialize k) VarUint32.deserialize k) ks
All-Restores [] h = tt
All-Restores (k ∷ ks) (h, hs) = (VarUint32.serialize_u32-Restores k h, All-Restores ks hs)

pub br_table-Restores :
    (t : BrTableData)
    → (length t.table < 2 ^ 32) × All VarUint32.IsU32 t.table × VarUint32.IsU32 t.default
    → Restores (serialize_br_table t) read_br_table (br_table t)
unfolding serialize_br_table
br_table-Restores t (h, k, l) =
    Restores-bind _ (CountedList.CountedList-Restores _ _ t.table h (All-Restores t.table k))
      (Restores-map _ (VarUint32.serialize_u32-Restores t.default l) (λ rest. refl))

module _ (le : LittleEndian) where
  pub atomic-Restores :
      {i : Instruction} (code : ℕ) (mem : MemArg)
      → VarUint32.IsU32 mem.offset
      → ((rest : Bytes) → atomic_of code mem rest ≡ ok (i, rest))
      → Restores (ok (0xfe ∷ code ∷ []) ⊹ serialize_mem_arg mem) (deserialize le) i
  unfolding deserialize instruction_of choose deserialize_atomic Uint8.deserialize
  atomic-Restores {i} code mem h last =
      let p : Restores (serialize_mem_arg mem) (deserialize_mem_arg >>= atomic_of code) i =
        Restores-map _ (mem_arg mem h) last in
      record { bytes = 0xfe ∷ code ∷ p.bytes; written = rw p.written refl; reads = p.reads }

  pub simd_with :
      {i : Instruction} {w : Written} (code : ℕ)
      → VarUint32.IsU32 code
      → Restores w (simd_of code) i
      → Restores (ok (0xfd ∷ []) ⊹ VarUint32.serialize code ⊹ w) (deserialize le) i
  unfolding deserialize instruction_of choose deserialize_simd Uint8.deserialize
  simd_with code h p =
      let q = Restores-bind _ (VarUint32.serialize_u32-Restores code h) p in
      record { bytes = 0xfd ∷ q.bytes; written = rw q.written refl; reads = q.reads }

  pub simd-Restores :
      {i : Instruction} (code : ℕ)
      → VarUint32.IsU32 code
      → ((rest : Bytes) → simd_of code rest ≡ ok (i, rest))
      → Restores (ok (0xfd ∷ []) ⊹ VarUint32.serialize code ⊹ ok []) (deserialize le) i
  simd-Restores code h last = simd_with code h (record { bytes = []; written = refl; reads = last })

  pub bulk-Restores :
      {i : Instruction} {w : Written} (code : ℕ)
      → Restores w (bulk_of code) i
      → Restores (ok (0xfc ∷ code ∷ []) ⊹ w) (deserialize le) i
  unfolding deserialize instruction_of choose deserialize_bulk Uint8.deserialize
  bulk-Restores code p = record {
    bytes = 0xfc ∷ code ∷ p.bytes;
    written = rw p.written refl;
    reads = p.reads;
  }
