-- ===== src/Elements/IndexMap/Lookup.antt =====
-- `get` after each operation.
use parity_wasm.Base.{
  ℕ, zero, suc, ◌+◌, ◌-◌, ◌≤◌, ◌<◌, ◌≡◌, ◌∙◌, sym, refl, List, [], ◌∷◌, ◌++◌, Option, none, some,
  leb, ◌==◌, if◌then◌else◌, length, get_elem?, set, replicate, arith, Bool-cases, Option-cases, inl,
  inr, leb→le,
}
use parity_wasm.Elements.IndexMap.{IndexMap, flatten, get, insert, remove}

module _ {T : Type 0} where
  -- The entry at an index, a hole or none.
  abbrev pub entry : List (Option T) → ℕ → Option T
  entry [] i = none
  entry (x ∷ xs) zero = x
  entry (x ∷ xs) (suc i) = entry xs i

  pub get-entry : (m : IndexMap T) (i : ℕ) → get m i ≡ entry m.entries i
  unfolding get
  get-entry m i = go m.entries i
    where
      go : (es : List (Option T)) (i : ℕ) → flatten (get_elem? es i) ≡ entry es i
      go [] i = refl
      go (some x ∷ xs) zero = refl
      go (none ∷ xs) zero = refl
      go (x ∷ xs) (suc i) = go xs i

  pub entry-set :
      (es : List (Option T)) (i j : ℕ) (v : Option T)
      → i < length es
      → entry (set es i v) j ≡ (if i == j then v else entry es j)
  entry-set [] i j v h = absurd (omega arith)
  entry-set (x ∷ es) zero zero v h = refl
  entry-set (x ∷ es) zero (suc j) v h = ground arith
  entry-set (x ∷ es) (suc i) zero v h = ground arith
  entry-set (x ∷ es) (suc i) (suc j) v h = ground (arith, entry-set es i j v (omega arith))

  pub entry_past : (es : List (Option T)) (i : ℕ) → length es ≤ i → entry es i ≡ none
  entry_past [] i h = refl
  entry_past (x ∷ es) zero h = absurd (omega arith)
  entry_past (x ∷ es) (suc i) h = entry_past es i (omega arith)

  pub entry_inside : (es : List (Option T)) (i : ℕ) {v : T} → entry es i ≡ some v → i < length es
  entry_inside [] i h = cc
  entry_inside (x ∷ es) zero h = omega arith
  entry_inside (x ∷ es) (suc i) h = omega (arith, entry_inside es i h)

  -- A vector that grows to hold index `i`.
  pub entry-grow :
      (es : List (Option T)) (k j : ℕ) (v : T)
      → entry (es ++ (replicate k none ++ some v ∷ [])) j
        ≡ (if length es + k == j then some v else entry es j)
  entry-grow [] zero zero v = refl
  entry-grow [] zero (suc j) v = ground arith
  entry-grow [] (suc k) zero v = ground arith
  entry-grow [] (suc k) (suc j) v = ground (arith, entry-grow [] k j v)
  entry-grow (x ∷ es) k zero v = ground arith
  entry-grow (x ∷ es) k (suc j) v = ground (arith, entry-grow es k j v)

  -- `insert` returns what the index held, and afterwards the index holds the value and every other
  -- index what it held.
  pub get-insert :
      (m : IndexMap T) (i j : ℕ) (v : T)
      → ((insert m i v).1 ≡ get m i)
        × (get (insert m i v).0 j ≡ (if i == j then some v else get m j))
  unfolding insert
  get-insert m i j v = elim (Bool-cases (leb (length m.entries) i)) [
    | inl past ↦
        let at_end : length m.entries + (i - length m.entries) ≡ i =
          omega (arith, leb→le _ _ past) in
        (
          rw (past, get-entry m i, entry_past m.entries i (leb→le _ _ past)),
          rw past (simp (get-entry, entry-grow, at_end)),
        )
    | inr inside ↦
        (rw inside, rw inside (simp (get-entry, entry-set m.entries i j (some v) (ground arith))))
  ]

  -- `remove` returns what the index held, and afterwards the index holds nothing and every other index
  -- what it held.
  pub get-remove :
      (m : IndexMap T) (i j : ℕ)
      → ((remove m i).1 ≡ get m i) × (get (remove m i).0 j ≡ (if i == j then none else get m j))
  unfolding remove
  get-remove m i j = elim (Option-cases (get m i)) [
    | inl hole ↦ (rw hole, rw hole (ground arith))
    | inr (v, held) ↦
        let inside : i < length m.entries = entry_inside m.entries i (sym (get-entry m i) ∙ held) in
        (rw held, rw held (simp (get-entry, entry-set m.entries i j none inside)))
  ]
