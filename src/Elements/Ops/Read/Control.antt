-- ===== src/Elements/Ops/Read/Control.antt =====
-- src/elements/ops.rs: the arms of `Instruction::deserialize` up to the variables.
use parity_wasm.Base.{List, [], ◌∷◌}
use parity_wasm.Elements.Codec.{pure}
use parity_wasm.Elements.Ops.{
  unreachable, nop, block, loop, if_op, else_op, end_op, br, br_if, return, call, drop, select,
  get_local, set_local, tee_local, get_global, set_global,
}
use parity_wasm.Elements.Ops.Read.Operands.{
  Arm, read_block, read_index, read_br_table, read_call_indirect,
}

abbrev pub control : List Arm
control =
    (0x00, pure unreachable)
    ∷ (0x01, pure nop)
    ∷ (0x02, read_block block)
    ∷ (0x03, read_block loop)
    ∷ (0x04, read_block if_op)
    ∷ (0x05, pure else_op)
    ∷ (0x0b, pure end_op)
    ∷ (0x0c, read_index br)
    ∷ (0x0d, read_index br_if)
    ∷ (0x0e, read_br_table)
    ∷ (0x0f, pure return)
    ∷ (0x10, read_index call)
    ∷ (0x11, read_call_indirect)
    ∷ (0x1a, pure drop)
    ∷ (0x1b, pure select)
    ∷ (0x20, read_index get_local)
    ∷ (0x21, read_index set_local)
    ∷ (0x22, read_index tee_local)
    ∷ (0x23, read_index get_global)
    ∷ (0x24, read_index set_global)
    ∷ []
