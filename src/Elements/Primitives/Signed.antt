-- ===== src/Elements/Primitives/Signed.antt =====
-- src/elements/primitives.rs: `VarInt32` and `VarInt64`, LEB128 with a sign.
-- The two types have the same two loops, at their own width, errors and test of the last byte.
-- The integer that `serialize` takes apart is a ℤ; what `deserialize` puts together is a word of
-- two's complement, since the code builds it with `|` and `<<`.
pub mod Format
pub mod Write
pub mod Words
pub mod Read
pub mod Total
use parity_wasm.Base.{
  ℕ, zero, suc, ◌+◌, ◌-◌, ◌*◌, ◌/◌, ◌%◌, ◌^◌, ◌<◌, ◌≡◌, bit_and, bit_or, Bool, true, false, ◌&&◌,
  ◌||◌, [], ◌∷◌, Option, none, some, Outcome, ok, err, ltb, leb, ◌==◌, if◌then◌else◌, Bool-cases,
  inl, inr, arith,
}
use parity_wasm.Base.Int.{ℤ, pos, negsuc, magnitude, eq_ℤ}
use parity_wasm.Elements.Error.{Error, eof}
use parity_wasm.Elements.Codec.{Bytes, Reader}
use parity_wasm.Elements.Primitives.Unsigned.{checked_shl}
use mathlib.Core.WellFounded.{Acc}

-- `b & 0b0100_0000 == 0b0100_0000`
abbrev pub sign_bit : ℕ → Bool
sign_bit b = bit_and b 0x40 == 0x40

module _ (bits : ℕ) (too_long : Error) (refuses : ℕ → Bool) (too_wide : Error) where
  -- The loop of `deserialize`, on what the reader has left. `(1 << shift).wrapping_neg()` is the word
  -- of ones from bit `shift` on. `refuses` is what the two branches for a full word (`shift >= bits`)
  -- test of the last byte, with its sign bit set and clear.
  unfoldable pub read_signed : ℕ → ℕ → Reader ℕ
  read_signed res shift [] = if ltb (bits - 1) shift then err too_long else err eof
  read_signed res shift (b ∷ rest) =
      let shifted = checked_shl bits (bit_and b 0x7f) shift in
      let next : Outcome Error (ℕ × Bytes) = elim shifted [
        | none ↦ err too_long
        | some group ↦
            let res' = bit_or res group in
            let more = read_signed res' (shift + 7) rest in
            if b / 128 == 0
            then (if ltb (shift + 7) bits && sign_bit b
                then ok (bit_or res' (2 ^ bits - 2 ^ (shift + 7)), rest)
                else (if leb bits (shift + 7) && refuses b then err too_wide else ok (res', rest)))
            else more
      ] in
      if ltb (bits - 1) shift then err too_long else next

-- `v & 0b0111_1111` and `v >> 7` of two's complement.
abbrev pub low_seven : ℤ → ℕ
low_seven (pos n) = bit_and n 0x7f
low_seven (negsuc n) = 127 - bit_and n 0x7f

abbrev pub shift_right : ℤ → ℤ
shift_right (pos n) = pos (n / 128)
shift_right (negsuc n) = negsuc (n / 128)

-- The condition that ends the loop of `serialize`, on the shifted number and the group written.
abbrev pub is_done : ℤ → ℕ → Bool
is_done v group =
    (eq_ℤ v (pos 0) && (bit_and group 0x40 == 0)) || (eq_ℤ v (negsuc 0) && sign_bit group)

abbrev pub Smaller : ℤ → ℤ → Type 0
Smaller a b = magnitude a < magnitude b

shift_smaller :
    (v : ℤ) → is_done (shift_right v) (low_seven v % 256) ≡ false → Smaller (shift_right v) v
shift_smaller (pos zero) h = cc h
shift_smaller (pos (suc n)) h = omega arith
shift_smaller (negsuc zero) h = cc h
shift_smaller (negsuc (suc n)) h = omega arith

-- The loop of `serialize`.
unfoldable pub write_signed : (v : ℤ) → Acc Smaller v → Bytes
unfolding shift_smaller
write_signed v (Acc.intro _ smaller) =
    let group = low_seven v % 256 in
    elim (Bool-cases (is_done (shift_right v) group)) [
      | inl _ ↦ group ∷ []
      | inr h ↦ bit_or group 0x80 ∷ write_signed (shift_right v) (smaller _ (shift_smaller v h))
    ]

Smaller-below : (k : ℕ) (v : ℤ) → magnitude v < k → Acc Smaller v
Smaller-below zero v h = absurd (omega arith)
Smaller-below (suc k) v h = Acc.intro v (λ u hu. Smaller-below k u (omega arith))

unfoldable pub smaller_wf : (v : ℤ) → Acc Smaller v
unfolding Smaller-below
smaller_wf v = Smaller-below (suc (magnitude v)) v (omega arith)
