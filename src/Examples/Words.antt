-- ===== src/Examples/Words.antt =====
-- Words of which the lowest byte comes first, for the witnesses.
use parity_wasm.Base.{
  ℕ, zero, suc, ◌+◌, ◌*◌, ◌/◌, ◌%◌, ◌^◌, ◌<◌, ◌≡◌, refl, [], ◌∷◌, length, All, arith,
}
use parity_wasm.Elements.Codec.{Bytes, IsByte}
use parity_wasm.Elements.Primitives.ByteOrder.{LittleEndian}

unfoldable pub digits : ℕ → ℕ → Bytes
digits zero v = []
digits (suc k) v = v % 256 ∷ digits k (v / 256)

unfoldable pub number : Bytes → ℕ
number [] = 0
number (b ∷ bs) = b + 256 * number bs

pub length-digits : (k v : ℕ) → length (digits k v) ≡ k
unfolding digits
length-digits zero v = refl
length-digits (suc k) v = omega (arith, length-digits k (v / 256))

pub number-digits : (k v : ℕ) → v < 256 ^ k → number (digits k v) ≡ v
unfolding digits number
number-digits zero v h = omega arith
number-digits (suc k) v h = omega (arith, number-digits k (v / 256) (omega arith))

pub digits-number : (bs : Bytes) → All IsByte bs → digits (length bs) (number bs) ≡ bs
unfolding digits number
digits-number [] h = refl
digits-number (b ∷ bs) (h, hs) =
    let last : (b + 256 * number bs) % 256 ≡ b = omega (arith, h) in
    let others : (b + 256 * number bs) / 256 ≡ number bs = omega (arith, h) in
    rw (last, others, digits-number bs hs) refl

abbrev pub le : LittleEndian
le = record {
  read_u32 = number;
  write_u32 = digits 4;
  read_u64 = number;
  write_u64 = digits 8;
  length-write_u32 = length-digits 4;
  length-write_u64 = length-digits 8;
  read_u32-write_u32 = λ v h. number-digits 4 v (omega arith);
  read_u64-write_u64 = λ v h. number-digits 8 v (omega arith);
  write_u32-read_u32 = λ bs h hs. rw h at (digits-number bs hs);
}
