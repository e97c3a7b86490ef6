-- ===== src/Elements/Primitives/Unsigned/Total.antt =====
-- The loop of `deserialize` ends on every input.
use parity_wasm.Base.{
  ℕ, ◌+◌, ◌-◌, ◌/◌, ◌≡◌, refl, ◌==◌, ltb, false, [], ◌∷◌, length, arith, Bool-cases, inl, inr,
}
use parity_wasm.Elements.Error.{Error, is_eof}
use parity_wasm.Elements.Codec.{Bytes}
use parity_wasm.Elements.Total.{Ends, returned, refused, Ends-if, Ends-le}
use parity_wasm.Elements.Primitives.Unsigned.{read_unsigned}

module _ (bits zeros : ℕ) (too_long too_wide : Error) (long : is_eof too_long ≡ false)
    (wide : is_eof too_wide ≡ false) where
  pub read_unsigned-Ends :
      (src : Bytes) (res shift : ℕ)
      → Ends 0 (length src) (read_unsigned bits zeros too_long too_wide res shift src)
  unfolding read_unsigned
  read_unsigned-Ends [] res shift = Ends-if _ (refused long) (refused refl)
  read_unsigned-Ends (b ∷ rest) res shift =
      Ends-if (ltb (bits - 1) shift) (refused long) (elim (Bool-cases (ltb shift bits)) [
        | inl e ↦ rw e (
            Ends-if (b / 128 == 0) (Ends-if _ (refused wide) (returned (omega arith)))
              (Ends-le (omega arith) (read_unsigned-Ends rest _ (shift + 7))))
        | inr e ↦ rw e (refused long)
      ])
