-- ===== src/Elements/Primitives/Signed/Format.antt =====
-- Signed LEB128 as arithmetic, apart from the code: the integer that an encoding stands for.
use parity_wasm.Base.{
  ℕ, zero, suc, ◌+◌, ◌-◌, ◌*◌, ◌/◌, ◌%◌, ◌^◌, ◌≤◌, ◌<◌, ◌≡◌, refl, arith, [], ◌∷◌, ltb, leb,
  if◌then◌else◌, length, ap, Bool-cases, inl, inr, ◌∙◌, ltb→lt, lt→ltb, le→leb,
}
use parity_wasm.Base.Int.{ℤ, pos, negsuc, magnitude}
use parity_wasm.Elements.Codec.{Bytes}
use parity_wasm.Elements.Primitives.Unsigned.Format.{IsLeb, last, more, length-IsLeb}
use native.Mathlib.Nat.{pow-suc}

-- `128 * z + g`, for a group `g` of seven bits.
abbrev pub shift_in : ℕ → ℤ → ℤ
shift_in g (pos n) = pos (g + 128 * n)
shift_in g (negsuc n) = negsuc (127 - g + 128 * n)

-- A last group, whose bit 6 is its sign.
abbrev pub extend : ℕ → ℤ
extend b = if leb 64 b then negsuc (127 - b) else pos b

abbrev pub sleb_value : Bytes → ℤ
sleb_value [] = pos 0
sleb_value (b ∷ bs) = if leb 128 b then shift_in (b % 128) (sleb_value bs) else extend b

pub sleb_value_inner :
    (b : ℕ) (bs : Bytes) → 128 ≤ b → sleb_value (b ∷ bs) ≡ shift_in (b % 128) (sleb_value bs)
sleb_value_inner b bs h = rw (le→leb 128 b h)

-- The lowest group of an integer, and the rest of it.
abbrev pub low_group : ℤ → ℕ
low_group (pos n) = n % 128
low_group (negsuc n) = 127 - n % 128

abbrev pub high_part : ℤ → ℤ
high_part (pos n) = pos (n / 128)
high_part (negsuc n) = negsuc (n / 128)

pub shift_in_parts : (z : ℤ) → shift_in (low_group z) (high_part z) ≡ z
shift_in_parts (pos n) = ap pos (omega arith)
shift_in_parts (negsuc n) = ap negsuc (omega arith)

pub extend_small : (z : ℤ) → magnitude z < 64 → extend (low_group z) ≡ z
extend_small (pos n) h = ground arith
extend_small (negsuc n) h = ground arith

-- The encoding of `z` with no padding, in `k + 1` bytes at most.
unfoldable pub sencoding : ℕ → ℤ → Bytes
sencoding zero z = low_group z ∷ []
sencoding (suc k) z =
    let rest = sencoding k (high_part z) in
    if ltb (magnitude z) 64 then low_group z ∷ [] else (low_group z + 128) ∷ rest

pub low_group-lt : (z : ℤ) → low_group z < 128
low_group-lt (pos n) = omega arith
low_group-lt (negsuc n) = omega arith

pub sencoding-IsLeb : (k : ℕ) (z : ℤ) → IsLeb (sencoding k z)
unfolding sencoding
sencoding-IsLeb zero z = last (low_group-lt z)
sencoding-IsLeb (suc k) z = elim (Bool-cases (ltb (magnitude z) 64)) [
  | inl small ↦ rw small (last (low_group-lt z))
  | inr large ↦
      rw large
        (more (omega arith) (omega (arith, low_group-lt z)) (sencoding-IsLeb k (high_part z)))
]

pub length-sencoding :
    (k : ℕ) (z : ℤ) → (1 ≤ length (sencoding k z)) × (length (sencoding k z) ≤ suc k)
unfolding sencoding
length-sencoding zero z = omega arith
length-sencoding (suc k) z = ground (arith, length-sencoding k (high_part z))

pub high_part-magnitude : (z : ℤ) → magnitude (high_part z) ≡ magnitude z / 128
high_part-magnitude (pos n) = refl
high_part-magnitude (negsuc n) = refl

pub sleb_value-last : (b : ℕ) → b < 128 → sleb_value (b ∷ []) ≡ extend b
sleb_value-last b h = ground arith

sleb_value-more :
    (g : ℕ) (bs : Bytes) → g < 128 → sleb_value ((g + 128) ∷ bs) ≡ shift_in g (sleb_value bs)
sleb_value-more g bs h =
    let back : (g + 128) % 128 ≡ g = omega arith in rw (le→leb 128 (g + 128) (omega arith), back)

pub sleb_value-sencoding :
    (k : ℕ) (z : ℤ) → magnitude z < 64 * 128 ^ k → sleb_value (sencoding k z) ≡ z
unfolding sencoding
sleb_value-sencoding zero z h = sleb_value-last _ (low_group-lt z) ∙ extend_small z (omega arith)
sleb_value-sencoding (suc k) z h = elim (Bool-cases (ltb (magnitude z) 64)) [
  | inl small ↦ rw small (sleb_value-last _ (low_group-lt z) ∙ extend_small z (ltb→lt _ _ small))
  | inr large ↦
      rw
        (
          large,
          sleb_value-more (low_group z) (sencoding k (high_part z)) (low_group-lt z),
          sleb_value-sencoding k (high_part z)
              (omega (arith, high_part-magnitude z, pow-suc 128 k)),
        )
        (shift_in_parts z)
]

extend-magnitude : (b : ℕ) → b < 128 → magnitude (extend b) < 64
extend-magnitude b h = ground arith

high_part-shift_in : (g : ℕ) (z : ℤ) → g < 128 → high_part (shift_in g z) ≡ z
high_part-shift_in g (pos n) h = ap pos (omega arith)
high_part-shift_in g (negsuc n) h = ap negsuc (omega arith)

-- No encoding of an integer, padded or not, is shorter.
pub sencoding-shortest :
    (k : ℕ) {p : Bytes} → IsLeb p → length (sencoding k (sleb_value p)) ≤ length p
unfolding sencoding
sencoding-shortest zero l = omega (arith, length-IsLeb l)
sencoding-shortest (suc k) (last {b} hb) =
    rw (sleb_value-last b hb, lt→ltb _ 64 (extend-magnitude b hb)) (omega arith)
sencoding-shortest (suc k) (more {b} {bs} hb hb' l) =
    elim (Bool-cases (ltb (magnitude (sleb_value (b ∷ bs))) 64)) [
      | inl small ↦ rw small (omega arith)
      | inr large ↦
          rw (large, le→leb 128 b hb, high_part-shift_in (b % 128) (sleb_value bs) (omega arith))
            (omega (arith, sencoding-shortest k l))
    ]
