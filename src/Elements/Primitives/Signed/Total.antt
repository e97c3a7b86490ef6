-- ===== src/Elements/Primitives/Signed/Total.antt =====
-- The loop of `deserialize` ends on every input.
use parity_wasm.Base.{
  ℕ, ◌+◌, ◌-◌, ◌/◌, ◌≡◌, refl, ◌==◌, ltb, false, Bool, [], ◌∷◌, length, arith, Bool-cases, inl, inr,
}
use parity_wasm.Elements.Error.{Error, is_eof}
use parity_wasm.Elements.Codec.{Bytes}
use parity_wasm.Elements.Total.{Ends, returned, refused, Ends-if, Ends-le}
use parity_wasm.Elements.Primitives.Signed.{read_signed}

module _ (bits : ℕ) (too_long : Error) (refuses : ℕ → Bool) (too_wide : Error)
    (long : is_eof too_long ≡ false) (wide : is_eof too_wide ≡ false) where
  pub read_signed-Ends :
      (src : Bytes) (res shift : ℕ)
      → Ends 0 (length src) (read_signed bits too_long refuses too_wide res shift src)
  unfolding read_signed
  read_signed-Ends [] res shift = Ends-if _ (refused long) (refused refl)
  read_signed-Ends (b ∷ rest) res shift =
      Ends-if (ltb (bits - 1) shift) (refused long) (elim (Bool-cases (ltb shift bits)) [
        | inl e ↦ rw e (
            Ends-if (b / 128 == 0)
              (Ends-if _ (returned (omega arith))
                (Ends-if _ (refused wide) (returned (omega arith))))
              (Ends-le (omega arith) (read_signed-Ends rest _ (shift + 7))))
        | inr e ↦ rw e (refused long)
      ])
