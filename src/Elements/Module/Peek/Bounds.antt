-- ===== src/Elements/Module/Peek/Bounds.antt =====
-- `peek_size` returns on every input.
use parity_wasm.Base.{
  ℕ, zero, suc, ◌+◌, ◌-◌, ◌≤◌, ◌<◌, ◌≡◌, ◌⊎◌, inl, inr, refl, ◌&&◌, ltb, leb, ◌==◌, ok, err, panic,
  out_of_fuel, length, drop, Outcome, Bool-cases, arith,
}
use parity_wasm.Elements.Error.{Error}
use parity_wasm.Elements.Codec.{Bytes}
use parity_wasm.Elements.Total.{Ends, returned, refused}
use parity_wasm.Elements.Primitives.VarUint7
use parity_wasm.Elements.Primitives.VarUint32
use parity_wasm.Elements.Module.Peek.{advance, peek_len, peek_id, peek_loop, peek_size}

-- A position in the source, after the header.
abbrev IsPosition : Bytes → Outcome Error ℕ → Type 0
IsPosition source o = (n : ℕ) × (o ≡ ok n) × (8 ≤ n) × (n ≤ length source)

module _ (source : Bytes) where
  advance-IsPosition :
      (more : ℕ → Outcome Error ℕ) (cursor id len : ℕ) (rest : Bytes)
      → 8 ≤ cursor
      → cursor ≤ length source
      → 1 + length rest ≤ length (drop cursor source)
      → ((k : ℕ) → cursor < k → k < length source → IsPosition source (more k))
      → IsPosition source (advance source more cursor id len rest)
  unfolding advance
  advance-IsPosition more cursor id len rest lo hi used next =
      let to = cursor + (length (drop cursor source) - length rest) + len in
      elim (Bool-cases (leb id 11 && ltb 0 len)) [
        | inr other ↦ rw other (cursor, refl, lo, hi)
        | inl known ↦ elim (Bool-cases (ltb (length source) to)) [
          | inl past ↦ rw (known, past) (cursor, refl, lo, hi)
          | inr inside ↦ elim (Bool-cases (to == length source)) [
            | inl whole ↦ rw (known, inside, whole) (to, refl, ground arith, ground arith)
            | inr between ↦ rw (known, inside, between) (next to (ground arith) (ground arith))
          ]
        ]
      ]

  len-IsPosition :
      (more : ℕ → Outcome Error ℕ) (cursor id n : ℕ) (o : Outcome Error (ℕ × Bytes))
      → 8 ≤ cursor
      → cursor ≤ length source
      → 1 + n ≤ length (drop cursor source)
      → Ends 0 n o
      → ((k : ℕ) → cursor < k → k < length source → IsPosition source (more k))
      → IsPosition source (peek_len source more cursor id o)
  unfolding peek_len
  len-IsPosition more cursor id n (ok (len, rest)) lo hi used (returned h) next =
      advance-IsPosition more cursor id len rest lo hi (omega (arith, used, h)) next
  len-IsPosition more cursor id n (err e) lo hi used (refused h) next = (cursor, refl, lo, hi)
  len-IsPosition more cursor id n panic lo hi used h next = elim h [ ]
  len-IsPosition more cursor id n out_of_fuel lo hi used h next = elim h [ ]

  id-IsPosition :
      (more : ℕ → Outcome Error ℕ) (cursor n : ℕ) (o : Outcome Error (ℕ × Bytes))
      → 8 ≤ cursor
      → cursor ≤ length source
      → n ≤ length (drop cursor source)
      → Ends 1 n o
      → ((k : ℕ) → cursor < k → k < length source → IsPosition source (more k))
      → IsPosition source (peek_id source more cursor o)
  unfolding peek_id
  id-IsPosition more cursor n (ok (id, rest)) lo hi le (returned h) next =
      len-IsPosition more cursor id (length rest) _ lo hi (omega (arith, le, h))
        (VarUint32.VarUint32-IsTotal.at rest) next
  id-IsPosition more cursor n (err e) lo hi le (refused h) next = (cursor, refl, lo, hi)
  id-IsPosition more cursor n panic lo hi le h next = elim h [ ]
  id-IsPosition more cursor n out_of_fuel lo hi le h next = elim h [ ]

  loop-IsPosition :
      (fuel cursor : ℕ)
      → 8 ≤ cursor
      → cursor ≤ length source
      → length source < fuel + cursor
      → IsPosition source (peek_loop source fuel cursor)
  unfolding peek_loop
  loop-IsPosition zero cursor lo hi enough = absurd (omega arith)
  loop-IsPosition (suc fuel) cursor lo hi enough =
      id-IsPosition (peek_loop source fuel) cursor (length (drop cursor source)) _ lo hi
        (omega arith) (VarUint7.VarUint7-IsProgress.at (drop cursor source))
        (λ k. λ past. λ inside.
          loop-IsPosition fuel k (omega (arith, lo, past)) (omega (arith, inside))
            (omega (arith, enough, past)))

  -- `peek_size` returns a size for any bytes: 0, or one from 8 to the length of the bytes.
  pub peek_size_bounded :
      (n : ℕ) × (peek_size source ≡ ok n) × (n ≤ length source) × ((n ≡ 0) ⊎ (8 ≤ n))
  unfolding peek_size
  peek_size_bounded = elim (Bool-cases (ltb (length source) 9)) [
    | inl short ↦ rw short (0, refl, omega arith, inl refl)
    | inr enough ↦
        let (n, e, lo, hi) =
          loop-IsPosition (length source) 8 (omega arith) (ground arith) (ground arith) in
        rw enough (n, e, hi, inr lo)
  ]
