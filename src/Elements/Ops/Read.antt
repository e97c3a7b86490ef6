-- ===== src/Elements/Ops/Read.antt =====
-- src/elements/ops.rs: an instruction is read.
pub mod Operands
pub mod Atomic
pub mod Simd
pub mod Bulk
pub mod Control
pub mod Numeric
pub mod Memory
pub mod Total
use parity_wasm.Base.{ℕ, [], ◌∷◌, ◌++◌}
use parity_wasm.Elements.Error.{unknown_opcode}
use parity_wasm.Elements.Codec.{Reader, ◌>>=◌, fail}
use parity_wasm.Elements.Primitives.ByteOrder.{LittleEndian}
use parity_wasm.Elements.Primitives.Uint8
use parity_wasm.Elements.Ops.{Instruction}
use parity_wasm.Elements.Ops.Read.Operands.{choose}
use parity_wasm.Elements.Ops.Read.Atomic.{deserialize_atomic}
use parity_wasm.Elements.Ops.Read.Simd.{deserialize_simd}
use parity_wasm.Elements.Ops.Read.Bulk.{deserialize_bulk}
use parity_wasm.Elements.Ops.Read.Control.{control}
use parity_wasm.Elements.Ops.Read.Memory.{memory_and_constants}
use parity_wasm.Elements.Ops.Read.Numeric.{numeric}

module _ (le : LittleEndian) where
  -- The instructions of one opcode, and the prefixes of the others.
  unfoldable pub instruction_of : ℕ → Reader Instruction
  unfolding choose
  instruction_of val =
      choose val
        (control
          ++ (memory_and_constants le
              ++ (numeric
                  ++ ((0xfe, deserialize_atomic)
                      ∷ (0xfd, deserialize_simd)
                      ∷ (0xfc, deserialize_bulk)
                      ∷ []))))
        (fail (unknown_opcode val))

  unfoldable pub deserialize : Reader Instruction
  unfolding instruction_of
  deserialize = do val ← Uint8.deserialize; instruction_of val
