-- ===== src/Elements/Ops/Read/Bulk.antt =====
-- src/elements/ops.rs: `deserialize_bulk`.
use parity_wasm.Base.{ℕ, List, [], ◌∷◌}
use parity_wasm.Elements.Error.{unknown_opcode}
use parity_wasm.Elements.Codec.{Reader, ◌>>=◌, pure, fail}
use parity_wasm.Elements.Primitives.Uint8
use parity_wasm.Elements.Ops.{
  Instruction, memory_init, memory_drop, memory_copy, memory_fill, table_init, table_drop,
  table_copy,
}
use parity_wasm.Elements.Ops.Read.Operands.{Arm, choose, read_index, read_reserved}

abbrev pub bulk : ℕ → List Arm
bulk val =
    (0x08, read_reserved val (read_index memory_init))
    ∷ (0x09, read_index memory_drop)
    ∷ (0x0b, read_reserved val (pure memory_fill))
    ∷ (0x0a, read_reserved val (pure memory_copy))
    ∷ (0x0c, read_reserved val (read_index table_init))
    ∷ (0x0d, read_index table_drop)
    ∷ (0x0e, read_reserved val (pure table_copy))
    ∷ []

unfoldable pub bulk_of : ℕ → Reader Instruction
unfolding choose
bulk_of val = choose val (bulk val) (fail (unknown_opcode val))

unfoldable pub deserialize_bulk : Reader Instruction
unfolding bulk_of
deserialize_bulk = do val ← Uint8.deserialize; bulk_of val
