-- ===== src/Elements/IndexMap/Equal.antt =====
-- Equality of maps, which compares the counts and the entries that both vectors have.
use parity_wasm.Base.{
  ℕ, zero, suc, ◌≡◌, ◌∙◌, sym, refl, Bool, true, false, ◌&&◌, ◌↔◌, min, List, [], ◌∷◌, Option, none,
  some, length, take, ◌==◌, not, arith, ==_iff, if◌then◌else◌,
}
use parity_wasm.Elements.IndexMap.{IndexMap, get, equal, slices_eq, eq_option}
use parity_wasm.Elements.IndexMap.Lookup.{entry, get-entry}
use parity_wasm.Elements.IndexMap.Valid.{weight, count_some, IsValid}
use native.Mathlib.Nat.{suc-min-suc, zero-min, min-zero}

&&-eq-true : (a b : Bool) → (a && b) ≡ true → (a ≡ true) × (b ≡ true)
&&-eq-true true b h = (refl, h)
&&-eq-true false b h = cc h

split_test : (a b : Bool) → (if not a then false else b) ≡ true → (a ≡ true) × (b ≡ true)
split_test true b h = (refl, h)
split_test false b h = cc h

module _ {T : Type 0} (eq : T → T → Bool) where
  -- The entries of two vectors at every index, those past the end being holes.
  Agrees : List (Option T) → List (Option T) → Type 0
  Agrees xs ys = (i : ℕ) → eq_option eq (entry xs i) (entry ys i) ≡ true

  same_weight : (a b : Option T) → eq_option eq a b ≡ true → weight a ≡ weight b
  same_weight (some a) (some b) h = refl
  same_weight (some a) none h = cc h
  same_weight none (some b) h = cc h
  same_weight none none h = refl

  -- The comparison of the entries that both have.
  prefix_eq : List (Option T) → List (Option T) → Bool
  prefix_eq [] ys = true
  prefix_eq (x ∷ xs) [] = true
  prefix_eq (x ∷ xs) (y ∷ ys) = eq_option eq x y && prefix_eq xs ys

  slices_eq-take :
      (xs ys : List (Option T))
      → slices_eq eq (take (min (length xs) (length ys)) xs) (take (min (length xs) (length ys)) ys)
        ≡ prefix_eq xs ys
  unfolding slices_eq prefix_eq
  slices_eq-take [] ys = rw zero-min
  slices_eq-take (x ∷ xs) [] = rw min-zero
  slices_eq-take (x ∷ xs) (y ∷ ys) = rw (suc-min-suc, slices_eq-take xs ys)

  no_entries : (es : List (Option T)) → count_some es ≡ 0 → (i : ℕ) → entry es i ≡ none
  no_entries [] h i = refl
  no_entries (some v ∷ es) h i = absurd (omega arith)
  no_entries (none ∷ es) h zero = refl
  no_entries (none ∷ es) h (suc i) = no_entries es (omega arith) i

  weightless : (es : List (Option T)) → ((i : ℕ) → weight (entry es i) ≡ 0) → count_some es ≡ 0
  weightless [] h = refl
  weightless (x ∷ es) h = omega (arith, h 0, weightless es (λ i. h (suc i)))

  sound :
      (xs ys : List (Option T))
      → count_some xs ≡ count_some ys
      → prefix_eq xs ys ≡ true
      → Agrees xs ys
  unfolding prefix_eq Agrees
  sound [] ys c h i = rw (no_entries ys (sym c) i) refl
  sound (x ∷ xs) [] c h i = rw (no_entries (x ∷ xs) c i) refl
  sound (x ∷ xs) (y ∷ ys) c h zero = (&&-eq-true _ _ h).0
  sound (x ∷ xs) (y ∷ ys) c h (suc i) =
      let (head, tail) = &&-eq-true (eq_option eq x y) (prefix_eq xs ys) h in
      sound xs ys (omega (arith, same_weight x y head)) tail i

  complete :
      (xs ys : List (Option T))
      → Agrees xs ys
      → (count_some xs ≡ count_some ys) × (prefix_eq xs ys ≡ true)
  unfolding prefix_eq Agrees
  complete [] ys h = (sym (weightless ys (λ i. sym (same_weight none (entry ys i) (h i)))), refl)
  complete (x ∷ xs) [] h =
      (weightless (x ∷ xs) (λ i. same_weight (entry (x ∷ xs) i) none (h i)), refl)
  complete (x ∷ xs) (y ∷ ys) h =
      let (c, p) = complete xs ys (λ i. h (suc i)) in
      (omega (arith, c, same_weight x y (h 0)), rw (h 0, p) refl)

  -- Two maps whose counts are right are equal for the code, whatever the equality `eq` of values is,
  -- exactly if at every index both hold nothing or both hold values that are equal by `eq`: holes at the
  -- end of a vector make no difference.
  pub equal_iff :
      (m n : IndexMap T)
      → IsValid m
      → IsValid n
      → (equal eq m n ≡ true) ↔ ((i : ℕ) → eq_option eq (get m i) (get n i) ≡ true)
  unfolding equal Agrees
  equal_iff m n hm hn = (
    (λ h i.
        let (same, prefix) = split_test (m.len == n.len) _ h in
        let counts = (==_iff m.len n.len).0 same in
        rw (get-entry m i, get-entry n i)
          (sound m.entries n.entries (omega (arith, counts))
            (sym (slices_eq-take m.entries n.entries) ∙ prefix) i)),
    (λ h.
        let (counts, prefix) =
          complete m.entries n.entries (λ i. rw (← get-entry m i, ← get-entry n i) (h i)) in
        rw ((==_iff m.len n.len).1 (omega (arith, counts)), slices_eq-take m.entries n.entries)
          prefix),
  )
