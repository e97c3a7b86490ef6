-- ===== src/Elements/Ops/Read/Operands.antt =====
-- src/elements/ops.rs: a `match` on an opcode is the list of its arms; the operands that arms read.
use parity_wasm.Base.{ℕ, ◌==◌, if◌then◌else◌, not, List, [], ◌∷◌}
use parity_wasm.Elements.Error.{unknown_opcode, invalid_memory_reference, invalid_table_reference}
use parity_wasm.Elements.Codec.{Bytes, Reader, ◌>>=◌, pure, fail, read}
use parity_wasm.Elements.Types.{BlockType, deserialize_block_type}
use parity_wasm.Elements.Primitives.Uint8
use parity_wasm.Elements.Primitives.VarUint32
use parity_wasm.Elements.Primitives.CountedList
use parity_wasm.Elements.Ops.{MemArg, Instruction, br_table, call_indirect}

abbrev pub Arm : Type 0
Arm = ℕ × Reader Instruction

unfoldable pub choose : ℕ → List Arm → Reader Instruction → Reader Instruction
choose val [] other = other
choose val ((code, d) ∷ arms) other = if val == code then d else choose val arms other

abbrev pub deserialize_mem_arg : Reader MemArg
deserialize_mem_arg = do
  align ← Uint8.deserialize
  offset ← VarUint32.deserialize
  pure (record { align = align; offset = offset })

-- The operands that arms read.
abbrev pub read_block : (BlockType → Instruction) → Reader Instruction
read_block op = do t ← deserialize_block_type; pure (op t)

abbrev pub read_index : (ℕ → Instruction) → Reader Instruction
read_index op = do index ← VarUint32.deserialize; pure (op index)

abbrev pub read_access : (ℕ → ℕ → Instruction) → Reader Instruction
read_access op = do
  flags ← VarUint32.deserialize
  offset ← VarUint32.deserialize
  pure (op flags offset)

abbrev pub read_memory : (MemArg → Instruction) → Reader Instruction
read_memory op = do mem ← deserialize_mem_arg; pure (op mem)

abbrev pub read_lane : (ℕ → Instruction) → Reader Instruction
read_lane op = do lane ← Uint8.deserialize; pure (op lane)

abbrev pub read_sixteen : (Bytes → Instruction) → Reader Instruction
read_sixteen op = do buf ← read 16; pure (op buf)

abbrev pub read_br_table : Reader Instruction
read_br_table = do
  t1 ← CountedList.deserialize VarUint32.deserialize
  default ← VarUint32.deserialize
  pure (br_table (record { table = t1; default = default }))

abbrev pub read_call_indirect : Reader Instruction
read_call_indirect = do
  signature ← VarUint32.deserialize
  table_ref ← Uint8.deserialize
  if not (table_ref == 0)
      then fail (invalid_table_reference table_ref)
      else pure (call_indirect signature table_ref)

abbrev pub read_memory_reference : (ℕ → Instruction) → Reader Instruction
read_memory_reference op = do
  mem_ref ← Uint8.deserialize
  if not (mem_ref == 0) then fail (invalid_memory_reference mem_ref) else pure (op mem_ref)

-- The byte that two-byte opcodes for one memory or table have after them.
abbrev pub read_reserved : ℕ → Reader Instruction → Reader Instruction
read_reserved val d = do
  reserved ← Uint8.deserialize
  if not (reserved == 0) then fail (unknown_opcode val) else d
