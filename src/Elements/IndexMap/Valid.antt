-- ===== src/Elements/IndexMap/Valid.antt =====
-- The invariant: the field `len` counts the entries that are not holes.
use parity_wasm.Base.{
  ℕ, zero, suc, ◌+◌, ◌-◌, ◌≤◌, ◌<◌, ◌≡◌, ◌∙◌, sym, List, [], ◌∷◌, ◌++◌, Option, none, some, leb,
  length, set, replicate, arith, Bool-cases, Option-cases, inl, inr,
}
use parity_wasm.Elements.IndexMap.{IndexMap, get, insert, less_one, remove, from_iter}
use parity_wasm.Elements.IndexMap.Lookup.{entry, get-entry, entry_inside}

module _ {T : Type 0} where
  abbrev pub weight : Option T → ℕ
  weight (some v) = 1
  weight none = 0

  abbrev pub count_some : List (Option T) → ℕ
  count_some [] = 0
  count_some (x ∷ xs) = weight x + count_some xs

  abbrev pub IsValid : IndexMap T → Type 0
  IsValid m = m.len ≡ count_some m.entries

  count_some-set :
      (es : List (Option T)) (i : ℕ) (v : Option T)
      → i < length es
      → count_some (set es i v) + weight (entry es i) ≡ count_some es + weight v
  count_some-set [] i v h = absurd (omega arith)
  count_some-set (x ∷ es) zero v h = omega arith
  count_some-set (x ∷ es) (suc i) v h = omega (arith, count_some-set es i v (omega arith))

  count_some-grow :
      (es : List (Option T)) (k : ℕ) (v : T)
      → count_some (es ++ (replicate k none ++ some v ∷ [])) ≡ count_some es + 1
  count_some-grow [] zero v = omega arith
  count_some-grow [] (suc k) v = omega (arith, count_some-grow [] k v)
  count_some-grow (x ∷ es) k v = omega (arith, count_some-grow es k v)

  pub weight-le-count_some : (es : List (Option T)) (i : ℕ) → weight (entry es i) ≤ count_some es
  weight-le-count_some [] i = omega arith
  weight-le-count_some (x ∷ es) zero = omega arith
  weight-le-count_some (x ∷ es) (suc i) = omega (arith, weight-le-count_some es i)

  -- Every insertion keeps the count.
  pub insert-IsValid : (m : IndexMap T) (i : ℕ) (v : T) → IsValid m → IsValid (insert m i v).0
  unfolding insert
  insert-IsValid m i v h = elim (Bool-cases (leb (length m.entries) i)) [
    | inl past ↦ rw past (omega (arith, count_some-grow m.entries (i - length m.entries) v))
    | inr inside ↦
        let step = count_some-set m.entries i (some v) (ground arith) in
        elim (Option-cases (get m i)) [
          | inl hole ↦
              let before : entry m.entries i ≡ none = sym (get-entry m i) ∙ hole in
              rw (inside, hole) (omega (arith, rw before at step))
          | inr (w, held) ↦
              let before : entry m.entries i ≡ some w = sym (get-entry m i) ∙ held in
              rw (inside, held) (omega (arith, rw before at step))
        ]
  ]

  -- Every removal from a map whose count is right keeps it right, and lowers it by 1 where the index
  -- held a value and by 0 where it held none, so that the subtraction never wraps.
  pub remove-IsValid :
      (m : IndexMap T) (i : ℕ)
      → IsValid m
      → IsValid (remove m i).0 × ((remove m i).0.len + weight (get m i) ≡ m.len)
  unfolding remove
  remove-IsValid m i h = elim (Option-cases (get m i)) [
    | inl hole ↦ (rw hole h, rw hole (omega arith))
    | inr (w, held) ↦
        let before : entry m.entries i ≡ some w = sym (get-entry m i) ∙ held in
        let step =
          rw before at (count_some-set m.entries i none (entry_inside m.entries i before)) in
        let at_least = rw before at (weight-le-count_some m.entries i) in
        let lowered : less_one m.len ≡ m.len - 1 = ground (arith, h, at_least) in
        (
          rw (held, lowered) (omega (arith, step, at_least)),
          rw (held, lowered) (omega (arith, at_least)),
        )
  ]

  -- A map built from any pairs is valid.
  pub from_iter-IsValid :
      (pairs : List (ℕ × T)) (m : IndexMap T) → IsValid m → IsValid (from_iter pairs m)
  unfolding from_iter
  from_iter-IsValid [] m h = h
  from_iter-IsValid ((i, v) ∷ pairs) m h =
      from_iter-IsValid pairs (insert m i v).0 (insert-IsValid m i v h)
