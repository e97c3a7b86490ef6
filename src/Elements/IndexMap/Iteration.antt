-- ===== src/Elements/IndexMap/Iteration.antt =====
-- The iterators yield the entries in order, and building a map from them gives it back.
use parity_wasm.Base.{
  ℕ, zero, suc, ◌+◌, ◌-◌, ◌%◌, ◌^◌, ◌≤◌, ◌<◌, ◌≡◌, ◌∙◌, sym, refl, ap, List, [], ◌∷◌, Option, none,
  some, length, arith, ltb, leb, if◌then◌else◌, Bool-cases, inl, inr, leb→le, le→ltb,
}
use parity_wasm.Elements.IndexMap.{
  IndexMap, Iter, get, insert, into_iter, next_entry, next, collect, from_iter, with_capacity,
}
use parity_wasm.Elements.IndexMap.Lookup.{entry, get-entry, get-insert}
use native.Mathlib.Nat.{sub-zero}
use parity_wasm.Elements.IndexMap.Valid.{count_some, IsValid}

module _ {T : Type 0} where
  -- The pairs of an index and its value, from index `i` on.
  abbrev pub pairs : ℕ → List (Option T) → List (ℕ × T)
  pairs i [] = []
  pairs i (none ∷ es) = pairs (suc i) es
  pairs i (some v ∷ es) = (i, v) ∷ pairs (suc i) es

  pairs_nothing : (i : ℕ) (es : List (Option T)) → count_some es ≡ 0 → pairs i es ≡ []
  pairs_nothing i [] h = refl
  pairs_nothing i (none ∷ es) h = pairs_nothing (suc i) es (omega arith)
  pairs_nothing i (some v ∷ es) h = absurd (omega arith)

  pub length-pairs : (i : ℕ) (es : List (Option T)) → length (pairs i es) ≡ count_some es
  length-pairs i [] = refl
  length-pairs i (none ∷ es) = omega (arith, length-pairs (suc i) es)
  length-pairs i (some v ∷ es) = omega (arith, length-pairs (suc i) es)

  pub count_some-le-length : (es : List (Option T)) → count_some es ≤ length es
  count_some-le-length [] = omega arith
  count_some-le-length (none ∷ es) = omega (arith, count_some-le-length es)
  count_some-le-length (some v ∷ es) = omega (arith, count_some-le-length es)

  abbrev at : ℕ → ℕ → List (Option T) → Iter T
  at r i es = record { next_idx = i; remaining_len = r; iter = es }

  next_hole :
      (r i : ℕ) (es : List (Option T))
      → i + 1 < 2 ^ 32
      → next (at r i (none ∷ es)) ≡ next (at r (suc i) es)
  unfolding next next_entry
  next_hole r i es h = let index : (i + 1) % 2 ^ 32 ≡ suc i = omega arith in rw index

  next-some :
      (r i : ℕ) (v : T) (es : List (Option T))
      → i + 1 < 2 ^ 32
      → next (at (suc r) i (some v ∷ es)) ≡ some ((i, v), at r (suc i) es)
  unfolding next next_entry
  next-some r i v es h =
      let index : (i + 1) % 2 ^ 32 ≡ suc i = omega arith in
      let left : suc r - 1 ≡ r = omega arith in ground (arith, index, left)

  collect_hole :
      (fuel r i : ℕ) (es : List (Option T))
      → i + 1 < 2 ^ 32
      → collect (suc fuel) (at r i (none ∷ es)) ≡ collect (suc fuel) (at r (suc i) es)
  unfolding collect
  collect_hole fuel r i es h = rw (collect, next_hole r i es h, collect)

  collect-nothing : (fuel i : ℕ) (es : List (Option T)) → collect fuel (at 0 i es) ≡ []
  unfolding collect next
  collect-nothing zero i es = refl
  collect-nothing (suc fuel) i es = refl

  collect-some :
      (fuel r i : ℕ) (v : T) (es : List (Option T))
      → i + 1 < 2 ^ 32
      → collect (suc fuel) (at (suc r) i (some v ∷ es)) ≡ (i, v) ∷ collect fuel (at r (suc i) es)
  unfolding collect
  collect-some fuel r i v es h = rw (collect, next-some r i v es h)

  collect-pairs :
      (es : List (Option T)) (fuel r i : ℕ)
      → i + length es < 2 ^ 32
      → count_some es ≡ r
      → r ≤ fuel
      → collect fuel (at r i es) ≡ pairs i es
  collect-pairs es fuel zero i h c k = collect-nothing fuel i es ∙ sym (pairs_nothing i es c)
  collect-pairs es zero (suc r) i h c k = absurd (omega arith)
  collect-pairs [] (suc fuel) (suc r) i h c k = absurd (omega arith)
  collect-pairs (none ∷ es) (suc fuel) (suc r) i h c k =
      collect_hole fuel (suc r) i es (omega arith)
      ∙ collect-pairs es (suc fuel) (suc r) (suc i) (omega arith) (omega arith) k
  collect-pairs (some v ∷ es) (suc fuel) (suc r) i h c k =
      collect-some fuel r i v es (omega arith)
      ∙ ap (λ items. (i, v) ∷ items)
          (collect-pairs es fuel r (suc i) (omega arith) (omega arith) (omega arith))

  -- Iterating over a map whose count is right, and whose vector is shorter than 2 ^ 32, yields every
  -- index that holds a value, in ascending order, with its value.
  pub collect-into_iter :
      (m : IndexMap T)
      → IsValid m
      → length m.entries < 2 ^ 32
      → collect (length m.entries) (into_iter m) ≡ pairs 0 m.entries
  unfolding into_iter
  collect-into_iter m h k =
      collect-pairs m.entries (length m.entries) m.len 0 (omega arith) (sym h)
        (omega (arith, count_some-le-length m.entries))

  entry-cons :
      (x : Option T) (es : List (Option T)) (j k : ℕ)
      → entry (x ∷ es) (j - k) ≡ (if leb j k then x else entry es (j - suc k))
  entry-cons x es j k = elim (Bool-cases (leb j k)) [
    | inl le ↦ let here : j - k ≡ 0 = omega (arith, leb→le j k le) in rw (le, here)
    | inr gt ↦ let there : j - k ≡ suc (j - suc k) = ground arith in rw (gt, there)
  ]

  get-from_iter-pairs :
      (es : List (Option T)) (k : ℕ) (m : IndexMap T) (j : ℕ)
      → ((i : ℕ) → k ≤ i → get m i ≡ none)
      → get (from_iter (pairs k es) m) j ≡ (if ltb j k then get m j else entry es (j - k))
  unfolding from_iter
  get-from_iter-pairs [] k m j h = ground (arith, h j)
  get-from_iter-pairs (none ∷ es) k m j h =
      get-from_iter-pairs es (suc k) m j (λ i le. h i (omega arith))
      ∙ rw (entry-cons none es j k) (ground (arith, h j))
  get-from_iter-pairs (some v ∷ es) k m j h =
      get-from_iter-pairs es (suc k) (insert m k v).0 j
        (λ i le. (get-insert m k i v).1 ∙ ground (arith, h i))
      ∙ rw (entry-cons (some v) es j k, (get-insert m k j v).1) (ground (arith, h j))

  -- A map built from the pairs of another holds what that held.
  pub get-from_iter :
      (m : IndexMap T) (c j : ℕ) → get (from_iter (pairs 0 m.entries) (with_capacity c)) j ≡ get m j
  get-from_iter m c j =
      get-from_iter-pairs m.entries 0 (with_capacity c) j (λ i le. get-entry (with_capacity c) i)
      ∙ (rw (le→ltb j 0 (omega arith), sub-zero))
      ∙ sym (get-entry m j)
