-- ===== src/Elements/IndexMap/Bounds.antt =====
-- What a successful `deserialize_with` allocates and counts.
use parity_wasm.Base.{
  ℕ, zero, suc, ◌≤◌, ◌<◌, ◌≡◌, refl, subst, Option, none, some, ok, length, arith, leb,
  if◌then◌else◌, Bool-cases, inl, inr, length-append, length-replicate, length-set, leb→le,
}
use parity_wasm.Elements.Codec.{Bytes, Reader, after-eq-ok, ◌>>=◌, fail}
use parity_wasm.Elements.Error.{other}
use parity_wasm.Elements.Primitives.VarUint32
use parity_wasm.Elements.IndexMap.{
  IndexMap, insert, with_capacity, out_of_order, deserialize_items, deserialize_with,
}
use parity_wasm.Elements.IndexMap.Valid.{IsValid, insert-IsValid}

module _ {T : Type 0} where
  length-insert :
      (m : IndexMap T) (i : ℕ) (v : T) (most : ℕ)
      → length m.entries ≤ most
      → i < most
      → length (insert m i v).0.entries ≤ most
  unfolding insert
  length-insert m i v most h hi = elim (Bool-cases (leb (length m.entries) i)) [
    | inl past ↦
        rw past (
          rw length-append
            (rw length-append (rw length-replicate (omega (arith, leb→le _ _ past)))))
    | inr inside ↦ rw inside (rw length-set h)
  ]

  module _ (max : ℕ) (f : ℕ → Reader T) where
    -- One round of the loop that succeeds: the index is in range and in order.
    items_step :
        (count : ℕ) (prev : Option ℕ) (m : IndexMap T) (idx : ℕ) (src : Bytes)
        {p : IndexMap T × Bytes}
        → (if leb max idx
              then fail (other "index is larger than expected")
              else (if out_of_order prev idx
                  then fail (other "indices are out of order")
                  else (f idx >>= λ val.
                      deserialize_items max f count (some idx) (insert m idx val).0)))
            src
          ≡ ok p
        → (val : T) × (rest : Bytes) × (idx < max)
          × (deserialize_items max f count (some idx) (insert m idx val).0 rest ≡ ok p)
    items_step count prev m idx src e = elim (Bool-cases (leb max idx)) [
      | inl large ↦ cc (rw large at e)
      | inr small ↦ elim (Bool-cases (out_of_order prev idx)) [
        | inl early ↦ cc (rw (small, early) at e)
        | inr later ↦
            let (val, rest, read, e') = after-eq-ok (f idx src) _ (rw (small, later) at e) in
            (val, rest, ground arith, e')
      ]
    ]

    items_bounded :
        (count : ℕ) (prev : Option ℕ) (m m' : IndexMap T) (src rest : Bytes)
        → length m.entries ≤ max
        → IsValid m
        → deserialize_items max f count prev m src ≡ ok (m', rest)
        → (length m'.entries ≤ max) × IsValid m'
    unfolding deserialize_items
    items_bounded zero prev m m' src rest h valid e =
        let same : m ≡ m' = cc e in
        (subst (λ (n : IndexMap T). length n.entries ≤ max) same h, subst IsValid same valid)
    items_bounded (suc count) prev m m' src rest h valid e =
        let (idx, src', read, e') = after-eq-ok (VarUint32.deserialize src) _ e in
        let (val, src'', below, e'') = items_step count prev m idx src' e' in
        items_bounded count (some idx) (insert m idx val).0 m' src'' rest
          (length-insert m idx val max h below) (insert-IsValid m idx val valid) e''

    -- Whatever the input, a map that `deserialize_with` returns has a vector no longer than
    -- `max_entry_space`, and its count is right.
    pub deserialize_with_bounded :
        (src rest : Bytes) (m : IndexMap T)
        → deserialize_with max f src ≡ ok (m, rest)
        → (length m.entries ≤ max) × IsValid m
    unfolding deserialize_with
    deserialize_with_bounded src rest m e =
        let (len, src', read, e') = after-eq-ok (VarUint32.deserialize src) _ e in
        items_bounded len none (with_capacity len) m src' rest (omega arith) refl e'
