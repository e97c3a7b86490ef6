-- ===== src/Elements/Primitives/Groups.antt =====
-- Groups of seven bits at bit `7 * j` of a word, and the byte that both loops of `deserialize` join
-- to their result.
use parity_wasm.Base.{ℕ, suc, ◌+◌, ◌*◌, ◌%◌, ◌^◌, ◌≤◌, ◌<◌, ◌≡◌, ap, ◌∙◌, bit_and, bit_or, arith}
use parity_wasm.Base.Bits.{bit_and_seven, bit_or_disjoint, pow-add}
use native.Mathlib.Decide.{dec_lt}
use native.Mathlib.Nat.{mod-eq_of_lt, pow-le-pow_right}

pub le-mul : (g m p : ℕ) → m ≤ g → m * p ≤ g * p
le-mul g m p h = grind arith

pub lt-mul : (g m p : ℕ) → g < m → g * p + p ≤ m * p
lt-mul g m p h = omega (arith, le-mul m (suc g) p h)

-- The group `j` of seven bits starts at bit `7 * j`.
pub next_group : (j : ℕ) → 2 ^ (7 * (j + 1)) ≡ 2 ^ (7 * j) * 128
next_group j = ap (λ k. 2 ^ k) {y = 7 * j + 7} (omega arith) ∙ pow-add (7 * j) 7

-- A whole group that lies within the width fits it.
pub group_fits :
    (bits j g : ℕ) → 7 * j + 7 ≤ bits → g < 128 → g * 2 ^ (7 * j) + 2 ^ (7 * j) ≤ 2 ^ bits
group_fits bits j g h lt = omega (
  arith,
  next_group j,
  lt-mul g 128 (2 ^ (7 * j)) lt,
  pow-le-pow_right {n = 2} (omega arith) {i = 7 * (j + 1)} {j = bits} (omega arith),
)

-- What fits above bit `s` of a word of `s + top` bits is below `2 ^ top`.
pub top_group : (s top b : ℕ) → b * 2 ^ s < 2 ^ (s + top) → b < 2 ^ top
top_group s top b h = elim (dec_lt b (2 ^ top)) [
  | yes lt ↦ lt
  | no nlt ↦ absurd (omega (arith, pow-add s top, le-mul b (2 ^ top) (2 ^ s) (omega arith)))
]

module _ (bits : ℕ) where
  -- The result after the byte `b`, which the code takes together with `|` and the shift.
  abbrev pub joined : ℕ → ℕ → ℕ → ℕ
  joined b res shift = bit_or res (bit_and b 0x7f * 2 ^ shift % 2 ^ bits)

  pub joined_lem :
      (b res shift : ℕ)
      → res < 2 ^ shift
      → b % 128 * 2 ^ shift < 2 ^ bits
      → joined b res shift ≡ res + b % 128 * 2 ^ shift
  joined_lem b res shift h k =
      rw (bit_and_seven b, mod-eq_of_lt k) (bit_or_disjoint res (b % 128) shift h)
