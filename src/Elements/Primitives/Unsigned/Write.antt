-- ===== src/Elements/Primitives/Unsigned/Write.antt =====
-- What the loop of `serialize` writes.
use parity_wasm.Base.{ℕ, zero, suc, ◌/◌, ◌%◌, ◌+◌, ◌^◌, ◌<◌, ◌≡◌, bit_and, bit_or, arith, lt_wf}
use parity_wasm.Base.Bits.{bit_and_seven, set_seven}
use parity_wasm.Elements.Primitives.Unsigned.{write_unsigned}
use parity_wasm.Elements.Primitives.Unsigned.Format.{encoding}
use mathlib.Core.WellFounded.{Acc}

low_group : (v : ℕ) → bit_and v 0x7f % 256 ≡ v % 128
low_group v = rw bit_and_seven (omega arith)

inner_byte : (v : ℕ) → bit_or (bit_and v 0x7f % 256) 0x80 ≡ v % 128 + 128
inner_byte v = rw low_group (set_seven _ (omega arith))

write_unsigned_lem : (k v : ℕ) (w : Acc ◌<◌ v) → v < 128 ^ suc k → write_unsigned v w ≡ encoding k v
unfolding write_unsigned encoding
write_unsigned_lem zero v (Acc.intro _ smaller) h = ground (arith, low_group v)
write_unsigned_lem (suc k) v (Acc.intro _ smaller) h = grind (
  arith,
  low_group v,
  inner_byte v,
  λ (w : Acc ◌<◌ (v / 128)). write_unsigned_lem k (v / 128) w (omega arith),
)

pub write-encoding : (k v : ℕ) → v < 128 ^ suc k → write_unsigned v (lt_wf.apply v) ≡ encoding k v
write-encoding k v h = write_unsigned_lem k v (lt_wf.apply v) h
