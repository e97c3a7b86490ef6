-- ===== src/Elements/Primitives/Signed/Write.antt =====
-- What the loop of `serialize` writes.
use parity_wasm.Base.{ℕ, zero, suc, ◌%◌, ◌*◌, ◌-◌, ◌^◌, ◌<◌, ◌≡◌, arith, ltb}
use parity_wasm.Base.Bits.{bit_and_seven, set_seven, bit_six}
use parity_wasm.Base.Int.{ℤ, pos, negsuc, magnitude}
use parity_wasm.Elements.Primitives.Signed.{
  write_signed, smaller_wf, low_seven, shift_right, is_done, Smaller,
}
use parity_wasm.Elements.Primitives.Signed.Format.{
  sencoding, low_group, high_part, low_group-lt, high_part-magnitude,
}
use native.Mathlib.Nat.{pow-suc}
use mathlib.Core.WellFounded.{Acc}

low_seven_lem : (z : ℤ) → low_seven z % 256 ≡ low_group z
low_seven_lem (pos n) = rw bit_and_seven (omega arith)
low_seven_lem (negsuc n) = rw bit_and_seven (omega arith)

-- The loop ends where the integer fits seven bits.
is_done_lem : (z : ℤ) → is_done (shift_right z) (low_group z) ≡ ltb (magnitude z) 64
is_done_lem (pos n) = ground (arith, bit_six (n % 128))
is_done_lem (negsuc n) = ground (arith, bit_six (127 - n % 128))

write_signed_lem :
    (k : ℕ) (z : ℤ) (w : Acc Smaller z)
    → magnitude z < 64 * 128 ^ k
    → write_signed z w ≡ sencoding k z
unfolding write_signed sencoding
write_signed_lem zero z (Acc.intro _ smaller) h = grind (arith, low_seven_lem z, is_done_lem z)
write_signed_lem (suc k) z (Acc.intro _ smaller) h = grind (
  arith,
  low_seven_lem z,
  is_done_lem z,
  set_seven (low_group z),
  low_group-lt z,
  λ (w : Acc Smaller (high_part z)).
      write_signed_lem k (high_part z) w (omega (arith, high_part-magnitude z, pow-suc 128 k)),
)

pub write-sencoding :
    (k : ℕ) (z : ℤ) → magnitude z < 64 * 128 ^ k → write_signed z (smaller_wf z) ≡ sencoding k z
write-sencoding k z h = write_signed_lem k z (smaller_wf z) h
