-- ===== src/Elements/Primitives/Signed/Words.antt =====
-- Words of two's complement under the steps of a read.
use parity_wasm.Base.{
  ℕ, suc, ◌+◌, ◌-◌, ◌*◌, ◌/◌, ◌%◌, ◌^◌, ◌≤◌, ◌<◌, ◌≡◌, ◌∙◌, ap, bit_or, arith, le→leb,
}
use parity_wasm.Base.Bits.{bit_or_disjoint, pow-add, pow_pos}
use parity_wasm.Base.Int.{ℤ, pos, negsuc, IsSigned, word}
use parity_wasm.Elements.Primitives.Groups.{lt-mul}
use parity_wasm.Elements.Primitives.Signed.Format.{extend, shift_in}
use native.Mathlib.Nat.{
  mod-eq_of_lt, add-mul-mod_self_right, pow-le-pow_right, pow-suc, div-add-mod', mod-lt,
}

sub_mul : (a d p : ℕ) → d ≤ a → (a - d) * p + d * p ≡ a * p
sub_mul a d p h = omega (arith, ap (λ n. n * p) {x = a - d + d} {y = a} (omega arith))

pub word_lt : (m : ℕ) (z : ℤ) → IsSigned m z → word m z < 2 ^ m
word_lt m (pos n) h = omega arith
word_lt m (negsuc n) h = omega arith

-- One more group below a word.
pub word-shift_in :
    (m g : ℕ) (z : ℤ) → g < 128 → IsSigned m z → word (m + 7) (shift_in g z) ≡ g + 128 * word m z
word-shift_in m g (pos n) hg h = omega arith
word-shift_in m g (negsuc n) hg h = omega (arith, pow-add m 7)

pub IsSigned-shift_in : (m g : ℕ) (z : ℤ) → g < 128 → IsSigned m z → IsSigned (m + 7) (shift_in g z)
IsSigned-shift_in m g (pos n) hg h = omega (arith, pow-add m 7)
IsSigned-shift_in m g (negsuc n) hg h = omega (arith, pow-add m 7)

pub IsSigned-of-shift_in :
    (m g : ℕ) (z : ℤ) → g < 128 → IsSigned (suc m + 7) (shift_in g z) → IsSigned (suc m) z
IsSigned-of-shift_in m g (pos n) hg h = omega (arith, pow-add (suc m) 7, pow-suc 2 m)
IsSigned-of-shift_in m g (negsuc n) hg h = omega (arith, pow-add (suc m) 7, pow-suc 2 m)

-- A last group fits every word of more than seven bits.
pub IsSigned-extend : (m b : ℕ) → 7 ≤ m → b < 128 → IsSigned m (extend b)
IsSigned-extend m b h hb = ground (arith, pow-le-pow_right {n = 2} (omega arith) h)

-- The ones from bit `s + 7` on, joined to a last group at bit `s` whose sign bit is set.
pub sign_extension :
    (s m res b : ℕ)
    → 7 ≤ m
    → b < 128
    → 64 ≤ b
    → res < 2 ^ s
    → bit_or (res + b * 2 ^ s) (2 ^ (s + m) - 2 ^ (s + 7)) ≡ res + word m (extend b) * 2 ^ s
sign_extension s m res b h hb hs hr =
    let k : ℕ = m - 7 in
    let whole : 2 ^ m ≡ 2 ^ k * 128 = ap (λ n. 2 ^ n) {y = k + 7} (omega arith) ∙ pow-add k 7 in
    let total : 2 ^ (s + m) ≡ 2 ^ k * 2 ^ (s + 7) =
      ap (λ n. 2 ^ n) {y = k + (s + 7)} (omega arith) ∙ pow-add k (s + 7) in
    let ones : 2 ^ (s + m) - 2 ^ (s + 7) ≡ (2 ^ k - 1) * 2 ^ (s + 7) =
      omega (arith, total, sub_mul (2 ^ k) 1 (2 ^ (s + 7)) (pow_pos k)) in
    let below : res + b * 2 ^ s < 2 ^ (s + 7) =
      omega (arith, pow-add s 7, lt-mul b 128 (2 ^ s) hb) in
    rw (ones, le→leb 64 b hs)
      (bit_or_disjoint (res + b * 2 ^ s) (2 ^ k - 1) (s + 7) below
        ∙ omega (
          arith,
          pow-add s 7,
          whole,
          pow_pos k,
          ap (λ n. n * 2 ^ s) whole,
          ap (λ n. 2 ^ k * n) (pow-add s 7),
          sub_mul (2 ^ k) 1 (2 ^ (s + 7)) (pow_pos k),
          sub_mul (2 ^ m) (suc (127 - b)) (2 ^ s) (omega (arith, whole, pow_pos k)),
          ap (λ n. n * 2 ^ s) {x = suc (127 - b) + b} {y = 128} (omega arith),
        ))

-- The part of a last group at bit `s` that a word of `s + m` bits keeps.
pub mul-mod_word : (s m b : ℕ) → b * 2 ^ s % 2 ^ (s + m) ≡ b % 2 ^ m * 2 ^ s
mul-mod_word s m b =
    let low : b % 2 ^ m * 2 ^ s < 2 ^ (s + m) =
      omega (
        arith,
        pow-add s m,
        pow_pos s,
        lt-mul (b % 2 ^ m) (2 ^ m) (2 ^ s) (mod-lt b (pow_pos m)),
      ) in
    let parts : b * 2 ^ s ≡ b % 2 ^ m * 2 ^ s + b / 2 ^ m * 2 ^ (s + m) = omega (
      arith,
      ap (λ n. n * 2 ^ s) (div-add-mod' b (2 ^ m)),
      ap (λ n. b / 2 ^ m * n) (pow-add s m),
    ) in
    rw parts (add-mul-mod_self_right _ (b / 2 ^ m) (2 ^ (s + m)) ∙ mod-eq_of_lt low)
