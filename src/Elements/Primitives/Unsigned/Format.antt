-- ===== src/Elements/Primitives/Unsigned/Format.antt =====
-- LEB128 as arithmetic, apart from the code: which bytes are an encoding, and of what number.
use parity_wasm.Base.{
  ℕ, zero, suc, ◌+◌, ◌*◌, ◌/◌, ◌%◌, ◌^◌, ◌≤◌, ◌<◌, ◌≡◌, arith, [], ◌∷◌, ltb, if◌then◌else◌, length,
  Bool-cases, ltb→lt, inl, inr,
}
use parity_wasm.Elements.Codec.{Bytes, IsByte}
use native.Mathlib.Nat.{pow-suc}

-- Every byte but the last has its top bit set.
pub data IsLeb : Bytes → Type 0 where
  last : {b : ℕ} → b < 128 → IsLeb (b ∷ [])
  more : {b : ℕ} {bs : Bytes} → 128 ≤ b → IsByte b → IsLeb bs → IsLeb (b ∷ bs)

pub length-IsLeb : {p : Bytes} → IsLeb p → 0 < length p
length-IsLeb (last hb) = omega arith
length-IsLeb (more hb hb' l) = omega arith

-- Seven bits a byte, the lowest first.
abbrev pub leb_value : Bytes → ℕ
leb_value [] = 0
leb_value (b ∷ bs) = b % 128 + 128 * leb_value bs

-- The encoding of `v` with no padding, in `k + 1` bytes at most.
unfoldable pub encoding : ℕ → ℕ → Bytes
encoding zero v = v % 128 ∷ []
encoding (suc k) v =
    let rest = encoding k (v / 128) in if ltb v 128 then v ∷ [] else (v % 128 + 128) ∷ rest

pub encoding-IsLeb : (k v : ℕ) → IsLeb (encoding k v)
unfolding encoding
encoding-IsLeb zero v = last (omega arith)
encoding-IsLeb (suc k) v = elim (Bool-cases (ltb v 128)) [
  | inl small ↦ rw small (last (ltb→lt v 128 small))
  | inr large ↦ rw large (more (omega arith) (omega arith) (encoding-IsLeb k (v / 128)))
]

pub length-encoding : (k v : ℕ) → (1 ≤ length (encoding k v)) × (length (encoding k v) ≤ suc k)
unfolding encoding
length-encoding zero v = omega arith
length-encoding (suc k) v = ground (arith, length-encoding k (v / 128))

pub leb_value-encoding : (k v : ℕ) → v < 128 ^ suc k → leb_value (encoding k v) ≡ v
unfolding encoding
leb_value-encoding zero v h = omega arith
leb_value-encoding (suc k) v h =
    ground (arith, leb_value-encoding k (v / 128) (omega (arith, pow-suc 128 (suc k))))

-- No encoding of `v`, padded or not, is shorter.
pub encoding-shortest :
    (k v : ℕ) {p : Bytes} → IsLeb p → leb_value p ≡ v → length (encoding k v) ≤ length p
unfolding encoding
encoding-shortest zero v l e = omega (arith, length-IsLeb l)
encoding-shortest (suc k) v (last {b} hb) e = ground arith
encoding-shortest (suc k) v (more {b} {bs} hb hb' l) e =
    ground (arith, encoding-shortest k (v / 128) l (omega arith))
