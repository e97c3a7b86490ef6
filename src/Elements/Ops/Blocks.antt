-- ===== src/Elements/Ops/Blocks.antt =====
-- src/elements/ops.rs: `Instructions` and `InitExpr`, lists of instructions.
pub mod RoundTrip
pub mod Total
pub mod InitExpr
use parity_wasm.Base.{
  ℕ, zero, suc, ◌+◌, ◌-◌, ◌^◌, Option, none, some, List, [], ◌∷◌, ok, out_of_fuel, ltb, ◌==◌,
  if◌then◌else◌, length,
}
use parity_wasm.Elements.Error.{other}
use parity_wasm.Elements.Codec.{Reader, ◌>>=◌, pure, ok_or, Written, ◌⊹◌}
use parity_wasm.Elements.Primitives.ByteOrder.{LittleEndian}
use parity_wasm.Elements.Ops.{Instruction, end_op, is_block, is_terminal}
use parity_wasm.Elements.Ops.Read as Read
use parity_wasm.Elements.Ops.Write as Write

unfoldable pub empty : List Instruction
empty = end_op ∷ []

-- `block_count` after an instruction. It is a `usize`, of 64 bits.
unfoldable pub next_count : ℕ → Instruction → Option ℕ
unfolding is_block is_terminal
next_count block_count i =
    if is_terminal i
    then some (block_count - 1)
    else if is_block i
    then (if ltb (block_count + 1) (2 ^ 64) then some (block_count + 1) else none)
    else some block_count

module _ (le : LittleEndian) where
  -- The loop of `Instructions::deserialize`, with fuel for its rounds.
  unfoldable pub instructions_loop : ℕ → ℕ → Reader (List Instruction)
  unfolding next_count
  instructions_loop zero block_count = λ _. out_of_fuel
  instructions_loop (suc fuel) block_count = do
    instruction ← Read.deserialize le
    count ← ok_or (next_count block_count instruction) (other "too many instructions")
    if count == 0
        then pure (instruction ∷ [])
        else (do instructions ← instructions_loop fuel count; pure (instruction ∷ instructions))

  -- Every round reads a byte or fails.
  unfoldable pub deserialize_instructions : Reader (List Instruction)
  unfolding instructions_loop
  deserialize_instructions src = instructions_loop (suc (length src)) 1 src

  -- The loop of `InitExpr::deserialize`.
  unfoldable pub init_expr_loop : ℕ → Reader (List Instruction)
  init_expr_loop zero = λ _. out_of_fuel
  init_expr_loop (suc fuel) = do
    instruction ← Read.deserialize le
    if is_terminal instruction
        then pure (instruction ∷ [])
        else (do instructions ← init_expr_loop fuel; pure (instruction ∷ instructions))

  unfoldable pub deserialize_init_expr : Reader (List Instruction)
  unfolding init_expr_loop
  deserialize_init_expr src = init_expr_loop (suc (length src)) src

  -- `Instructions::serialize` and `InitExpr::serialize`.
  unfoldable pub serialize : List Instruction → Written
  serialize [] = ok []
  serialize (op ∷ ops) = Write.serialize le op ⊹ serialize ops
