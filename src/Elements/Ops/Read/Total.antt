-- ===== src/Elements/Ops/Read/Total.antt =====
-- The reader of instructions ends on every input, and uses a byte at least.
use parity_wasm.Base.{All, ℕ, ◌==◌, List, [], ◌∷◌, ◌++◌, refl}
use parity_wasm.Elements.Error.{unknown_opcode, unknown_simd_opcode}
use parity_wasm.Elements.Codec.{Reader, pure, ◌>>=◌, Bytes, fail}
use parity_wasm.Elements.Types.{BlockType}
use parity_wasm.Elements.Total.{
  IsTotal, IsProgress, IsProgress-bind, IsTotal-if, IsTotal-pure, IsTotal-fail, read-IsTotal,
}
use parity_wasm.Elements.Primitives.ByteOrder.{LittleEndian}
use parity_wasm.Elements.Primitives.Uint8
use parity_wasm.Elements.Primitives.Uint32
use parity_wasm.Elements.Primitives.Uint64
use parity_wasm.Elements.Primitives.VarInt32
use parity_wasm.Elements.Primitives.VarInt64
use parity_wasm.Elements.Primitives.Total.{reader_rules}
use parity_wasm.Elements.Types.Total.{block_type-IsTotal}
use parity_wasm.Elements.Ops.{Instruction, MemArg, i32_const, i64_const, f32_const, f64_const}
use parity_wasm.Elements.Ops.Read.{instruction_of, deserialize}
use parity_wasm.Elements.Ops.Read.Operands.{
  Arm, choose, deserialize_mem_arg, read_block, read_index, read_access, read_memory, read_lane,
  read_sixteen, read_br_table, read_call_indirect, read_memory_reference, read_reserved,
}
use parity_wasm.Elements.Ops.Read.Atomic.{atomics, atomic_of, deserialize_atomic}
use parity_wasm.Elements.Ops.Read.Simd.{simd, simd_of, deserialize_simd}
use parity_wasm.Elements.Ops.Read.Bulk.{bulk, bulk_of, deserialize_bulk}
use parity_wasm.Elements.Ops.Read.Control.{control}
use parity_wasm.Elements.Ops.Read.Memory.{memory_and_constants}
use parity_wasm.Elements.Ops.Read.Numeric.{numeric}

-- Each arm of a `match` is total.
abbrev AreTotal : List Arm → Type 0
AreTotal arms = All (λ arm. IsTotal (arm.1)) arms

choose-IsTotal :
    (val : ℕ) (arms : List Arm) (other : Reader Instruction)
    → AreTotal arms
    → IsTotal other
    → IsTotal (choose val arms other)
unfolding choose
choose-IsTotal val [] other h k = k
choose-IsTotal val ((code, d) ∷ arms) other (h, hs) k =
    IsTotal-if (val == code) d (choose val arms other) h (choose-IsTotal val arms other hs k)

AreTotal-append : (arms more : List Arm) → AreTotal arms → AreTotal more → AreTotal (arms ++ more)
AreTotal-append [] more h k = k
AreTotal-append (arm ∷ arms) more (h, hs) k = (h, AreTotal-append arms more hs k)

mem_arg-IsTotal : IsTotal deserialize_mem_arg
mem_arg-IsTotal = search reader_rules depth 14

index-IsTotal : (op : ℕ → Instruction) → IsTotal (read_index op)
index-IsTotal op = search reader_rules depth 14

block-IsTotal : (op : BlockType → Instruction) → IsTotal (read_block op)
block-IsTotal op = search (reader_rules, block_type-IsTotal) depth 14

access-IsTotal : (op : ℕ → ℕ → Instruction) → IsTotal (read_access op)
access-IsTotal op = search reader_rules depth 14

memory-IsTotal : (op : MemArg → Instruction) → IsTotal (read_memory op)
memory-IsTotal op = search (reader_rules, mem_arg-IsTotal) depth 14

lane-IsTotal : (op : ℕ → Instruction) → IsTotal (read_lane op)
lane-IsTotal op = search reader_rules depth 14

sixteen-IsTotal : (op : Bytes → Instruction) → IsTotal (read_sixteen op)
sixteen-IsTotal op = search (reader_rules, read-IsTotal) depth 14

br_table-IsTotal : IsTotal read_br_table
br_table-IsTotal = search reader_rules depth 14

call_indirect-IsTotal : IsTotal read_call_indirect
call_indirect-IsTotal = search reader_rules depth 14

memory_reference-IsTotal : (op : ℕ → Instruction) → IsTotal (read_memory_reference op)
memory_reference-IsTotal op = search reader_rules depth 14

reserved-IsTotal : (val : ℕ) (d : Reader Instruction) → IsTotal d → IsTotal (read_reserved val d)
reserved-IsTotal val d h = search reader_rules depth 14

ruleset arm_rules = (
  IsTotal-pure, index-IsTotal, block-IsTotal, access-IsTotal, memory-IsTotal, lane-IsTotal,
  sixteen-IsTotal, br_table-IsTotal, call_indirect-IsTotal, memory_reference-IsTotal,
  reserved-IsTotal,
)

control-AreTotal : AreTotal control
control-AreTotal = search arm_rules parts 100

numeric-AreTotal : AreTotal numeric
numeric-AreTotal = search IsTotal-pure parts 400

atomics-AreTotal : (mem : MemArg) → AreTotal (atomics mem)
atomics-AreTotal mem = search IsTotal-pure parts 400

simd-AreTotal : AreTotal simd
simd-AreTotal = search arm_rules parts 400

bulk-AreTotal : (val : ℕ) → AreTotal (bulk val)
bulk-AreTotal val = search arm_rules parts 40

atomic_of-IsTotal : (val : ℕ) (mem : MemArg) → IsTotal (atomic_of val mem)
unfolding atomic_of
atomic_of-IsTotal val mem =
    choose-IsTotal val (atomics mem) (fail (unknown_opcode val)) (atomics-AreTotal mem)
      (IsTotal-fail _ refl)

atomic-IsTotal : IsTotal deserialize_atomic
unfolding deserialize_atomic
atomic-IsTotal = search (reader_rules, mem_arg-IsTotal, atomic_of-IsTotal) depth 14

simd_of-IsTotal : (val : ℕ) → IsTotal (simd_of val)
unfolding simd_of
simd_of-IsTotal val =
    choose-IsTotal val simd (fail (unknown_simd_opcode val)) simd-AreTotal (IsTotal-fail _ refl)

simd-IsTotal : IsTotal deserialize_simd
unfolding deserialize_simd
simd-IsTotal = search (reader_rules, simd_of-IsTotal) depth 14

bulk_of-IsTotal : (val : ℕ) → IsTotal (bulk_of val)
unfolding bulk_of
bulk_of-IsTotal val =
    choose-IsTotal val (bulk val) (fail (unknown_opcode val)) (bulk-AreTotal val)
      (IsTotal-fail _ refl)

bulk-IsTotal : IsTotal deserialize_bulk
unfolding deserialize_bulk
bulk-IsTotal = search (reader_rules, bulk_of-IsTotal) depth 14

module _ (le : LittleEndian) where
  constant_32-IsTotal : IsTotal (do n ← Uint32.deserialize le; pure (f32_const n))
  constant_32-IsTotal = search (reader_rules, Uint32.Uint32-IsTotal) depth 14

  constant_64-IsTotal : IsTotal (do n ← Uint64.deserialize le; pure (f64_const n))
  constant_64-IsTotal = search (reader_rules, Uint64.Uint64-IsTotal) depth 14

  integer_32-IsTotal : IsTotal (do n ← VarInt32.deserialize; pure (i32_const n))
  integer_32-IsTotal = search reader_rules depth 14

  integer_64-IsTotal : IsTotal (do n ← VarInt64.deserialize; pure (i64_const n))
  integer_64-IsTotal = search reader_rules depth 14

  memory-AreTotal : AreTotal (memory_and_constants le)
  memory-AreTotal =
      search
        (
          arm_rules, integer_32-IsTotal, integer_64-IsTotal, constant_32-IsTotal,
          constant_64-IsTotal,
        )
        parts 100

  instruction_of-IsTotal : (val : ℕ) → IsTotal (instruction_of le val)
  unfolding instruction_of
  instruction_of-IsTotal val =
      let prefixes : List Arm =
        (0xfe, deserialize_atomic) ∷ (0xfd, deserialize_simd) ∷ (0xfc, deserialize_bulk) ∷ [] in
      let plain = numeric ++ prefixes in
      let more = memory_and_constants le ++ plain in
      let all : AreTotal (control ++ more) = AreTotal-append control more control-AreTotal (
        AreTotal-append (memory_and_constants le) plain memory-AreTotal (
          AreTotal-append numeric prefixes numeric-AreTotal
            (atomic-IsTotal, (simd-IsTotal, (bulk-IsTotal, tt))))) in
      choose-IsTotal val (control ++ more) (fail (unknown_opcode val)) all (IsTotal-fail _ refl)

  pub Instruction-IsProgress : IsProgress (deserialize le)
  unfolding deserialize
  Instruction-IsProgress = IsProgress-bind _ _ Uint8.Uint8-IsProgress instruction_of-IsTotal
