-- ===== src/Elements/IndexMap/Serial.antt =====
-- A map is read back from what was written.
use parity_wasm.Base.{
  ℕ, suc, ◌+◌, ◌≤◌, ◌<◌, ◌^◌, ◌≡◌, ◌∙◌, sym, subst, refl, List, [], ◌∷◌, Option, none, some, length,
  arith, leb, false,
}
use parity_wasm.Elements.Codec.{Reader, Written, Restores, Restores-bind}
use parity_wasm.Elements.Primitives.VarUint32
use parity_wasm.Elements.IndexMap.{
  IndexMap, get, insert, from_iter, with_capacity, out_of_order, serialize_items, serialize,
  deserialize_items, deserialize_with,
}
use parity_wasm.Elements.IndexMap.Lookup.{entry, get-entry}
use parity_wasm.Elements.IndexMap.Valid.{count_some, IsValid, from_iter-IsValid}
use parity_wasm.Elements.IndexMap.Iteration.{
  pairs, collect-into_iter, get-from_iter, count_some-le-length,
}

gt→leb : (a b : ℕ) → b < a → leb a b ≡ false
gt→leb a b h = ground arith

-- The index before, if there was one, is smaller.
abbrev Before : Option ℕ → ℕ → Type 0
Before none k = Unit {0}
Before (some p) k = p < k

in_order : (prev : Option ℕ) (k : ℕ) → Before prev k → out_of_order prev k ≡ false
in_order none k h = refl
in_order (some p) k h = gt→leb k p h

Before-suc : (prev : Option ℕ) (k : ℕ) → Before prev k → Before prev (suc k)
Before-suc none k h = tt
Before-suc (some p) k h = omega arith

module _ {T : Type 0} (s : T → Written) (f : ℕ → Reader T) (max : ℕ) where
  items-Restores :
      (es : List (Option T)) (k : ℕ) (prev : Option ℕ) (m : IndexMap T)
      → ((i : ℕ) (v : T) → entry es i ≡ some v → Restores (s v) (f (k + i)) v)
      → k + length es ≤ max
      → k + length es < 2 ^ 32
      → Before prev k
      → Restores
          (serialize_items s (pairs k es))
          (deserialize_items max f (count_some es) prev m)
          (from_iter (pairs k es) m)
  unfolding serialize_items deserialize_items from_iter
  items-Restores [] k prev m h hm hw hp = record {
    bytes = [];
    written = refl;
    reads = λ rest. refl;
  }
  items-Restores (none ∷ es) k prev m h hm hw hp =
      let later = λ (i : ℕ) (v : T) (e : entry es i ≡ some v).
        subst (λ n. Restores (s v) (f n) v) {x = k + suc i} {y = suc k + i} (omega arith)
          (h (suc i) v e) in
      let count : 0 + count_some es ≡ count_some es = omega arith in
      rw count
        (items-Restores es (suc k) prev m later (omega arith) (omega arith) (Before-suc prev k hp))
  items-Restores (some v ∷ es) k prev m h hm hw hp =
      let later = λ (i : ℕ) (w : T) (e : entry es i ≡ some w).
        subst (λ n. Restores (s w) (f n) w) {x = k + suc i} {y = suc k + i} (omega arith)
          (h (suc i) w e) in
      let here =
        subst (λ n. Restores (s v) (f n) v) {x = k + 0} {y = k} (omega arith) (h 0 v refl) in
      let count : 1 + count_some es ≡ suc (count_some es) = omega arith in
      let rest =
        items-Restores es (suc k) (some k) (insert m k v).0 later (omega arith) (omega arith)
          (omega arith) in
      rw count (
        Restores-bind _ (VarUint32.serialize_u32-Restores k (omega arith))
          (rw (gt→leb max k (omega arith), in_order prev k hp) (Restores-bind _ here rest)))

  -- What `serialize` wrote of a map is read back by `deserialize_with`, whatever follows it: a map that
  -- holds the same values at the same indices, and whose count is right. The map's count is right, its
  -- vector is no longer than the space for entries and shorter than 2 ^ 32, and each value that it
  -- holds is read back at its index.
  pub IndexMap-Restores :
      (m : IndexMap T)
      → IsValid m
      → length m.entries ≤ max
      → length m.entries < 2 ^ 32
      → ((i : ℕ) (v : T) → get m i ≡ some v → Restores (s v) (f i) v)
      → (m' : IndexMap T) × Restores (serialize s m) (deserialize_with max f) m'
        × IsValid m'
        × ((i : ℕ) → get m' i ≡ get m i)
  unfolding serialize deserialize_with
  IndexMap-Restores m valid hm hw h = (
    from_iter (pairs 0 m.entries) (with_capacity m.len),
    rw (collect-into_iter m valid hw) (
        Restores-bind _
          (VarUint32.serialize_usize-Restores m.len (omega (arith, count_some-le-length m.entries)))
          (subst
            (λ n.
              Restores (serialize_items s (pairs 0 m.entries))
                (deserialize_items max f n none (with_capacity m.len))
                (from_iter (pairs 0 m.entries) (with_capacity m.len)))
            (sym valid)
            (items-Restores m.entries 0 none (with_capacity m.len) values (omega arith)
              (omega arith) tt))),
    from_iter-IsValid (pairs 0 m.entries) (with_capacity m.len) refl,
    λ i. get-from_iter m m.len i,
  )
    where
      values : (i : ℕ) (v : T) → entry m.entries i ≡ some v → Restores (s v) (f (0 + i)) v
      values i v e = subst (λ n. Restores (s v) (f n) v) (omega arith) (h i v (get-entry m i ∙ e))
