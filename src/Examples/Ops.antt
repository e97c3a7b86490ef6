-- ===== src/Examples/Ops.antt =====
-- Instructions, segments and globals, with words of which the lowest byte comes first.
use parity_wasm.Base.{◌≡◌, refl, [], ◌∷◌, arith, ok, List, ◌++◌}
use parity_wasm.Elements.Codec.{Restores}
use parity_wasm.Examples.Words.{le, digits}
use parity_wasm.Elements.Primitives.Uint8
use parity_wasm.Elements.Primitives.Uint32
use parity_wasm.Elements.Ops.{
  MemArg, f32_const, i32_atomic_rmw_and, Instruction, loop, br, end_op, nop, is_block, is_terminal,
}
use parity_wasm.Elements.Types.{no_result}
use parity_wasm.Elements.Ops.Blocks as Blocks
use parity_wasm.Elements.Ops.Blocks.{deserialize_instructions, deserialize_init_expr}
use parity_wasm.Elements.Ops.Blocks.RoundTrip.{
  IsSequence, nothing, plain, nested, Instructions-Restores,
}
use parity_wasm.Elements.Ops.Read as Read
use parity_wasm.Elements.Ops.Write as Write
use parity_wasm.Elements.Ops.RoundTrip.{Instruction-Restores}
use parity_wasm.Elements.Ops.RoundTrip.Atomics.{full_32, atomic_and_refused}

abbrev access : MemArg
access = record { align = 2; offset = 300 }

one : Write.serialize le (f32_const 0x3f800000) ≡ ok (0x43 ∷ 0 ∷ 0 ∷ 0x80 ∷ 0x3f ∷ [])
unfolding Write.serialize Uint32.serialize digits Uint8.serialize
one = refl

Instruction-Restores_example :
    Restores
      (Write.serialize le (f32_const 0x3f800000))
      (Read.deserialize le)
      (f32_const 0x3f800000)
Instruction-Restores_example = Instruction-Restores le (f32_const 0x3f800000) (omega arith)

atomic_and_refused_example :
    Restores
      (Write.serialize le (i32_atomic_rmw_and access))
      (Read.deserialize le)
      (i32_atomic_rmw_and access)
    → ⊥
atomic_and_refused_example = atomic_and_refused le (i32_atomic_rmw_and access) full_32

-- A loop around a branch, and a `nop` after it.
abbrev body : List Instruction
body = loop no_result ∷ br 0 ∷ end_op ∷ nop ∷ []

body-IsSequence : IsSequence body
unfolding is_block is_terminal
body-IsSequence =
    nested {i = loop no_result} {body = br 0 ∷ []} {is = nop ∷ []} refl refl
      (plain refl refl nothing) (plain refl refl nothing)

Instructions-Restores_example :
    Restores
      (Blocks.serialize le (body ++ end_op ∷ []))
      (deserialize_instructions le)
      (body ++ end_op ∷ [])
Instructions-Restores_example =
    Instructions-Restores le body body-IsSequence (λ e. cc e, (omega arith, (tt, (tt, (tt, tt)))))
      (omega arith)
