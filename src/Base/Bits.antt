-- ===== src/Base/Bits.antt =====
-- Bit operations: the masks on one byte as arithmetic, and `|` on numbers with no common bit.
use Prim.Native.Nat.{
  ℕ, zero, suc, ◌+◌, ◌*◌, ◌/◌, ◌%◌, ◌^◌, ◌≤◌, ◌<◌, min, max, bit_and, bit_or, digits,
  bit_and-bitwise, bit_or-bitwise, ◌-◌,
}
use mathlib.Core.Path.{◌≡◌, refl, sym}
use mathlib.Core.Bool.{Bool, true, false, not, ◌&&◌}
use native.Mathlib.Omega.{arith}
use native.Mathlib.Nat.{pow-suc, one-le-pow, zero-mod, add-zero, add-suc, mul_assoc}
use parity_wasm.Base.Tests.{◌==◌, ==_iff}

-- A property of the numbers below `n`, checked one by one.
unfoldable pub holds_below : ℕ → (ℕ → Bool) → Bool
holds_below zero p = true
holds_below (suc n) p = p n && holds_below n p

holds_below→ : (n : ℕ) (p : ℕ → Bool) (x : ℕ) → holds_below n p ≡ true → x < n → p x ≡ true
unfolding holds_below
holds_below→ zero p x h lt = absurd (omega arith)
holds_below→ (suc n) p x h lt = ground (arith, holds_below→ n p x)

-- Two functions that agree below `n`.
pub agree :
    (f g : ℕ → ℕ) (n : ℕ) → holds_below n (λ x. f x == g x) ≡ true → (x : ℕ) → x < n → f x ≡ g x
agree f g n h x lt = (==_iff (f x) (g x)).0 (holds_below→ n _ x h lt)

-- Two tests that agree below `n`.
abbrev pub same : Bool → Bool → Bool
same true b = b
same false b = not b

same→eq : (a b : Bool) → same a b ≡ true → a ≡ b
same→eq true true h = refl
same→eq true false h = cc
same→eq false true h = cc
same→eq false false h = refl

pub agree_tests :
    (f g : ℕ → Bool) (n : ℕ)
    → holds_below n (λ x. same (f x) (g x)) ≡ true
    → (x : ℕ) → x < n
    → f x ≡ g x
agree_tests f g n h x lt = same→eq (f x) (g x) (holds_below→ n _ x h lt)

pub bit_seven : (b : ℕ) → b < 256 → bit_and b 0x80 ≡ b / 128 * 128
unfolding holds_below
bit_seven = agree (λ b. bit_and b 0x80) (λ b. b / 128 * 128) 256 refl

pub bit_six : (b : ℕ) → b < 256 → bit_and b 0x40 ≡ b / 64 % 2 * 64
unfolding holds_below
bit_six = agree (λ b. bit_and b 0x40) (λ b. b / 64 % 2 * 64) 256 refl

pub set_seven : (b : ℕ) → b < 128 → bit_or b 0x80 ≡ b + 128
unfolding holds_below
set_seven = agree (λ b. bit_or b 0x80) (λ b. b + 128) 128 refl

-- The digits of `a | b`, with a count of those to go.
abbrev or_digits : ℕ → ℕ → ℕ → ℕ
or_digits n a b = digits (λ b. b) max n a b

halve_shifted : (g s : ℕ) → (g * 2 ^ suc s / 2 ≡ g * 2 ^ s) × (g * 2 ^ suc s % 2 ≡ 0)
halve_shifted g s =
    let double : g * 2 ^ suc s ≡ g * 2 ^ s * 2 = rw (pow-suc 2 s) (omega arith) in
    (rw double (omega arith), rw double (omega arith))

or_digits_disjoint : (n s a g : ℕ) → a ≤ n → a < 2 ^ s → or_digits n a (g * 2 ^ s) ≡ a + g * 2 ^ s
or_digits_disjoint zero s zero g h lt = omega arith
or_digits_disjoint zero s (suc a) g h lt = absurd (omega arith)
or_digits_disjoint (suc n) s zero g h lt = omega arith
or_digits_disjoint (suc n) zero (suc a) g h lt = absurd (omega arith)
or_digits_disjoint (suc n) (suc s) (suc a) g h lt =
    let (half, even) = halve_shifted g s in
    let below : suc a < 2 ^ s * 2 = rw (pow-suc 2 s) at lt in
    rw (half, even)
      (omega (arith, half, even, or_digits_disjoint n s (suc a / 2) g (omega arith) (omega arith)))

-- Numbers below bit `s` and numbers of whole `2 ^ s` have no common bit.
pub bit_or_disjoint : (a g s : ℕ) → a < 2 ^ s → bit_or a (g * 2 ^ s) ≡ a + g * 2 ^ s
bit_or_disjoint a g s h =
    omega (arith, bit_or-bitwise a (g * 2 ^ s), or_digits_disjoint a s a g (omega arith) h)

-- The digits of `a & b`, with a count of those to go.
abbrev and_digits : ℕ → ℕ → ℕ → ℕ
and_digits n a b = digits (λ b. zero) min n a b

mod_double : (a m : ℕ) → 0 < m → a / 2 % m * 2 + a % 2 ≡ a % (m * 2)
mod_double a m h = grind arith

halve_mask : (k : ℕ) → ((2 ^ suc k - 1) / 2 ≡ 2 ^ k - 1) × ((2 ^ suc k - 1) % 2 ≡ 1)
halve_mask k =
    let double : 2 ^ suc k ≡ 2 ^ k * 2 = pow-suc 2 k in
    (
      omega (arith, double, one-le-pow k 2 (omega arith)),
      omega (arith, double, one-le-pow k 2 (omega arith)),
    )

and_digits_nothing : (n a : ℕ) → and_digits n a 0 ≡ 0
and_digits_nothing zero a = refl
and_digits_nothing (suc n) zero = refl
and_digits_nothing (suc n) (suc a) = omega (arith, and_digits_nothing n (suc a / 2))

and_digits_mask : (n k a : ℕ) → a ≤ n → and_digits n a (2 ^ k - 1) ≡ a % 2 ^ k
and_digits_mask zero k zero h = sym (zero-mod (2 ^ k))
and_digits_mask zero k (suc a) h = absurd (omega arith)
and_digits_mask (suc n) k zero h = sym (zero-mod (2 ^ k))
and_digits_mask (suc n) zero (suc a) h = omega (arith, and_digits_nothing n (suc a / 2))
and_digits_mask (suc n) (suc k) (suc a) h =
    let (half, odd) = halve_mask k in
    rw (half, odd, pow-suc 2 k)
      (omega (
        arith,
        and_digits_mask n k (suc a / 2) (omega arith),
        mod_double (suc a) (2 ^ k) (one-le-pow k 2 (omega arith)),
      ))

-- A mask of the `k` lowest bits.
pub bit_and_mask : (k a : ℕ) → bit_and a (2 ^ k - 1) ≡ a % 2 ^ k
bit_and_mask k a = omega (arith, bit_and-bitwise a (2 ^ k - 1), and_digits_mask a k a (omega arith))

pub bit_and_seven : (a : ℕ) → bit_and a 0x7f ≡ a % 128
bit_and_seven a = bit_and_mask 7 a

pub pow-add : (a b : ℕ) → 2 ^ (a + b) ≡ 2 ^ a * 2 ^ b
pow-add a zero = rw add-zero (omega arith)
pow-add a (suc b) =
    rw (add-suc, pow-suc 2 (a + b), pow-suc 2 b, pow-add a b) (mul_assoc (2 ^ a) (2 ^ b) 2)

pub pow_pos : (a : ℕ) → 0 < 2 ^ a
pow_pos a = one-le-pow a 2 (omega arith)
