-- ===== src/Elements/Primitives/Unsigned.antt =====
-- src/elements/primitives.rs: `VarUint32` and `VarUint64`, LEB128 without a sign.
-- The two types have the same two loops, at their own width, errors and test of the last byte.
pub mod Format
pub mod Write
pub mod Read
pub mod Total
use parity_wasm.Base.{
  ℕ, ◌+◌, ◌-◌, ◌*◌, ◌/◌, ◌%◌, ◌^◌, ◌<◌, bit_and, bit_or, ◌&&◌, [], ◌∷◌, Option, none, some, Outcome,
  ok, err, ltb, leb, ◌==◌, if◌then◌else◌, arith,
}
use parity_wasm.Elements.Error.{Error, eof}
use parity_wasm.Elements.Codec.{Bytes, Reader}
use mathlib.Core.Logic.{dite}
use mathlib.Core.WellFounded.{Acc}
use native.Mathlib.Decide.{dec_lt}

-- `checked_shl` of a word of `bits` bits.
abbrev pub checked_shl : ℕ → ℕ → ℕ → Option ℕ
checked_shl bits v shift = if ltb shift bits then some (v * 2 ^ shift % 2 ^ bits) else none

-- `u8::leading_zeros`
unfoldable pub leading_zeros : ℕ → ℕ
leading_zeros b =
    if ltb b 1
    then 8
    else if ltb b 2
    then 7
    else if ltb b 4
    then 6
    else if ltb b 8
    then 5
    else if ltb b 16
    then 4
    else if ltb b 32
    then 3
    else if ltb b 64
    then 2
    else if ltb b 128
    then 1
    else 0

module _ (bits zeros : ℕ) (too_long too_wide : Error) where
  -- The loop of `deserialize`, on what the reader has left. The last byte of a word that fills its
  -- width must have at least `zeros` leading zeros.
  unfoldable pub read_unsigned : ℕ → ℕ → Reader ℕ
  read_unsigned res shift [] = if ltb (bits - 1) shift then err too_long else err eof
  read_unsigned res shift (b ∷ rest) =
      let shifted = checked_shl bits (bit_and b 0x7f) shift in
      let next : Outcome Error (ℕ × Bytes) = elim shifted [
        | none ↦ err too_long
        | some group ↦
            let more = read_unsigned (bit_or res group) (shift + 7) rest in
            if b / 128 == 0
            then (if leb bits (shift + 7) && ltb (leading_zeros b) zeros
                then err too_wide
                else ok (bit_or res group, rest))
            else more
      ] in
      if ltb (bits - 1) shift then err too_long else next

shift_shrinks : (v : ℕ) → 0 < v / 128 → v / 128 < v
shift_shrinks v h = omega arith

-- The loop of `serialize`. `v > 0` and `v == 0` after the shift are the two sides of one test.
unfoldable pub write_unsigned : (v : ℕ) → Acc ◌<◌ v → Bytes
unfolding shift_shrinks
write_unsigned v (Acc.intro _ smaller) =
    dite (dec_lt 0 (v / 128))
      (λ more.
        bit_or (bit_and v 0x7f % 256) 0x80
        ∷ write_unsigned (v / 128) (smaller _ (shift_shrinks v more)))
      (λ _. bit_and v 0x7f % 256 ∷ [])
