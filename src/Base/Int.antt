-- ===== src/Base/Int.antt =====
-- Signed integers over the native numbers, and words of two's complement.
use Prim.Native.Nat.{ℕ, suc, ◌-◌, ◌*◌, ◌^◌, ◌≤◌}
use mathlib.Core.Path.{◌≡◌}
use mathlib.Core.Bool.{Bool, false}
use native.Mathlib.Omega.{arith}
use parity_wasm.Base.Tests.{ltb, ◌==◌, if◌then◌else◌}

-- `negsuc n` is -(n + 1).
pub data ℤ : Type 0 where
  pos : ℕ → ℤ
  negsuc : ℕ → ℤ

-- The number of a sign and its distance from 0 or from -1.
abbrev pub magnitude : ℤ → ℕ
magnitude (pos n) = n
magnitude (negsuc n) = n

-- The integers of a word of `m` bits.
abbrev pub IsSigned : ℕ → ℤ → Type 0
IsSigned m z = suc (magnitude z) * 2 ≤ 2 ^ m

-- The word that stands for an integer, and the integer that a word stands for.
abbrev pub word : ℕ → ℤ → ℕ
word m (pos n) = n
word m (negsuc n) = 2 ^ m - suc n

unfoldable pub signed : ℕ → ℕ → ℤ
signed m w = if ltb (w * 2) (2 ^ m) then pos w else negsuc (2 ^ m - suc w)

pub signed-word : (m : ℕ) (z : ℤ) → IsSigned m z → signed m (word m z) ≡ z
unfolding signed
signed-word m (pos n) h = ground arith
signed-word m (negsuc n) h = ground arith

abbrev pub eq_ℤ : ℤ → ℤ → Bool
eq_ℤ (pos a) (pos b) = a == b
eq_ℤ (negsuc a) (negsuc b) = a == b
eq_ℤ _ _ = false
