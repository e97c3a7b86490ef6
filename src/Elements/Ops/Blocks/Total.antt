-- ===== src/Elements/Ops/Blocks/Total.antt =====
-- The loops over instructions end on every input: their fuel lasts.
use parity_wasm.Base.{ℕ, zero, suc, ◌<◌, ◌==◌, [], ◌∷◌, length, arith, refl}
use parity_wasm.Elements.Error.{other}
use parity_wasm.Elements.Codec.{Bytes, pure}
use parity_wasm.Elements.Total.{
  Ends, IsTotal, Ends-then, Ends-le, Ends-choice, returned, IsTotal-ok_or,
}
use parity_wasm.Elements.Primitives.ByteOrder.{LittleEndian}
use parity_wasm.Elements.Ops.{is_terminal}
use parity_wasm.Elements.Ops.Read.Total.{Instruction-IsProgress}
use parity_wasm.Elements.Ops.Blocks.{
  next_count, instructions_loop, deserialize_instructions, init_expr_loop, deserialize_init_expr,
}

module _ (le : LittleEndian) where
  instructions_loop-Ends :
      (fuel count : ℕ) (src : Bytes)
      → length src < fuel
      → Ends 0 (length src) (instructions_loop le fuel count src)
  unfolding instructions_loop
  instructions_loop-Ends zero count src h = absurd (omega arith)
  instructions_loop-Ends (suc fuel) count src h =
      Ends-then _ ((Instruction-IsProgress le).at src) (λ instruction. λ rest. λ shorter.
        let counted =
          IsTotal-ok_or (next_count count instruction) (other "too many instructions") refl in
        Ends-then _ (Ends-le {j = 1} {m = length src} (omega (arith, shorter)) (counted.at rest))
          (λ next. λ rest'. λ shorter'.
            Ends-choice (next == 0) (pure (instruction ∷ [])) _ rest'
              (returned (omega (arith, shorter')))
              (Ends-then _
                (Ends-le {j = 0} {m = length src} (omega (arith, shorter'))
                  (instructions_loop-Ends fuel next rest' (omega (arith, shorter', h))))
                (λ instructions. λ left. λ kept. returned (omega (arith, kept))))))

  pub instructions-IsTotal : IsTotal (deserialize_instructions le)
  unfolding deserialize_instructions
  instructions-IsTotal = record {
    at = λ src. instructions_loop-Ends (suc (length src)) 1 src (omega arith);
  }

  init_expr_loop-Ends :
      (fuel : ℕ) (src : Bytes)
      → length src < fuel
      → Ends 0 (length src) (init_expr_loop le fuel src)
  unfolding init_expr_loop
  init_expr_loop-Ends zero src h = absurd (omega arith)
  init_expr_loop-Ends (suc fuel) src h =
      Ends-then _ ((Instruction-IsProgress le).at src) (λ instruction. λ rest. λ shorter.
        Ends-choice (is_terminal instruction) (pure (instruction ∷ [])) _ rest
          (returned (omega (arith, shorter)))
          (Ends-then _
            (Ends-le {j = 0} {m = length src} (omega (arith, shorter))
              (init_expr_loop-Ends fuel rest (omega (arith, shorter, h))))
            (λ instructions. λ left. λ kept. returned (omega (arith, kept)))))

  pub init_expr-IsTotal : IsTotal (deserialize_init_expr le)
  unfolding deserialize_init_expr
  init_expr-IsTotal = record {
    at = λ src. init_expr_loop-Ends (suc (length src)) src (omega arith);
  }
