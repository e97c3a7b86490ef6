-- ===== src/Elements/Module/Names/Each.antt =====
-- `parse_names` and `parse_reloc` read every section again by itself.
use parity_wasm.Base.{
  ℕ, ◌==◌, ◌+◌, ◌≡◌, refl, ap, ◌∙◌, ◌⊎◌, inl, inr, Bool-cases, List, [], ◌∷◌, ◌++◌, map,
  append_assoc, Option, none, some, ok, err, panic, out_of_fuel, Outcome,
}
use parity_wasm.Elements.Error.{Error}
use parity_wasm.Elements.Codec.{Bytes, Reader, after}
use parity_wasm.Elements.Primitives.VarUint7
use parity_wasm.Elements.Primitives.VarUint32
use parity_wasm.Elements.NameSection.{NameSection}
use parity_wasm.Elements.Section.{Section, CustomSection}
use parity_wasm.Elements.Module.{
  Module, first, import_of, function_of, type_of, code_of, functions_space, import_count,
  count_imports, function_type,
}
use parity_wasm.Elements.ImportEntry.{ImportEntry}
use parity_wasm.Elements.Module.Names.{
  Change, Progress, round, parse_loop, parse_name, named, deserialize_name_section, names_of,
  deserialize_function_names, deserialize_local_names, name_header, equal_text,
}

-- A section after it was read again, and the error if it could not be.
abbrev changed_to : Section → Change → Section
changed_to s (ok (some s')) = s'
changed_to s _ = s

abbrev error_at : ℕ → Change → List (ℕ × Error) → List (ℕ × Error)
error_at i (err e) errors = (i, e) ∷ errors
error_at i _ errors = errors

abbrev pub reread : (Section → Change) → Section → Section
reread parse s = changed_to s (parse s)

abbrev pub errors_from : (Section → Change) → ℕ → List Section → List (ℕ × Error)
errors_from parse i [] = []
errors_from parse i (s ∷ ss) = error_at i (parse s) (errors_from parse (i + 1) ss)

-- An answer or an error.
pub data IsAnswer : Change → Type 0 where
  answered : {o : Option Section} → IsAnswer (ok o)
  faulted : {e : Error} → IsAnswer (err e)

round-answer :
    (i : ℕ) (s : Section) (more : Section → Outcome Error Progress) (c : Change)
    {errors : List (ℕ × Error)} {ss : List Section}
    → IsAnswer c
    → more (changed_to s c) ≡ ok (errors, ss)
    → round i s more c ≡ ok (error_at i c errors, changed_to s c ∷ ss)
round-answer i s more (ok none) answered e = rw e refl
round-answer i s more (ok (some s')) answered e = rw e refl
round-answer i s more (err x) faulted e = rw e refl
round-answer i s more panic a e = elim a [ ]
round-answer i s more out_of_fuel a e = elim a [ ]

map-snoc :
    {A B : Type 0} (f : A → B) (xs : List A) (x : A) → map f (xs ++ x ∷ []) ≡ map f xs ++ f x ∷ []
map-snoc f [] x = refl
map-snoc f (y ∷ xs) x = ap (λ ys. f y ∷ ys) (map-snoc f xs x)

-- What the section is read as does not change as those before it do.
abbrev IsStable : (List Section → Section → Change) → (Section → Change) → List Section → Type 0
IsStable parse alone all =
    (before after : List Section) (s : Section)
    → before ++ after ≡ all
    → parse (map (reread alone) before ++ after) s ≡ alone s

module _ (parse : List Section → Section → Change) (alone : Section → Change) (all : List Section)
    (answers : (s : Section) → IsAnswer (alone s)) (stable : IsStable parse alone all) where
  pub loop_lem :
      (i : ℕ) (before todo : List Section)
      → before ++ todo ≡ all
      → parse_loop parse i (map (reread alone) before) todo
        ≡ ok (errors_from alone i todo, map (reread alone) todo)
  unfolding parse_loop
  loop_lem i before [] e = refl
  loop_lem i before (s ∷ ss) e =
      let here = stable before (s ∷ ss) s e in
      let next : (before ++ s ∷ []) ++ ss ≡ all = append_assoc before (s ∷ []) ss ∙ e in
      let moved : map (reread alone) (before ++ s ∷ [])
          ≡ map (reread alone) before ++ reread alone s ∷ [] =
        map-snoc (reread alone) before s in
      let rest = loop_lem (i + 1) (before ++ s ∷ []) ss next in
      rw here (
        round-answer i s (λ s'. parse_loop parse (i + 1) (map (reread alone) before ++ s' ∷ []) ss)
          (alone s) (answers s) (rw moved at rest))

same_after :
    {A B : Type 0} (f g : A → Reader B) (o : Outcome Error (A × Bytes))
    → ((a : A) (rest : Bytes) → f a rest ≡ g a rest)
    → after o f ≡ after o g
same_after f g (ok (a, rest)) h = h a rest
same_after f g (err e) h = refl
same_after f g panic h = refl
same_after f g out_of_fuel h = refl

-- A custom section becomes one of names, or no section changes.
module _ (m : Module) where
  pub renamed :
      (s : Section)
      → (reread (parse_name m) s ≡ s)
        ⊎ ((c : CustomSection) × (n : NameSection) × (s ≡ Section.custom c)
            × (reread (parse_name m) s ≡ Section.name n))
  unfolding parse_name named
  renamed (Section.custom c) = elim (Bool-cases (equal_text c.name name_header)) [
    | inl e ↦ rw e (by_result c (deserialize_name_section m c.payload))
    | inr e ↦ rw e (inl refl)
  ]
    where
      by_result :
          (c : CustomSection) (o : Outcome Error (NameSection × Bytes))
          → (changed_to (Section.custom c) (named o) ≡ Section.custom c)
            ⊎ ((c' : CustomSection) × (n : NameSection) × (Section.custom c ≡ Section.custom c')
                × (changed_to (Section.custom c) (named o) ≡ Section.name n))
      by_result c (ok (n, rest)) = inr (c, n, refl, refl)
      by_result c (err e) = inl refl
      by_result c panic = inl refl
      by_result c out_of_fuel = inl refl
  renamed s = inl refl

  pub kept :
      {A : Type 0} (of : Section → Option A)
      → ((c : CustomSection) → of (Section.custom c) ≡ none)
      → ((n : NameSection) → of (Section.name n) ≡ none)
      → (s : Section) → of (reread (parse_name m) s) ≡ of s
  kept of h k s = elim (renamed s) [
    | inl e ↦ ap of e
    | inr (c, n, e, e') ↦ cc (h c, k n, ap of e, ap of e')
  ]

  pub first-kept :
      {A : Type 0} (of : Section → Option A)
      → ((c : CustomSection) → of (Section.custom c) ≡ none)
      → ((n : NameSection) → of (Section.name n) ≡ none)
      → (before after : List Section)
      → first of (map (reread (parse_name m)) before ++ after) ≡ first of (before ++ after)
  unfolding first
  first-kept of h k [] after = refl
  first-kept of h k (s ∷ before) after = rw (kept of h k s, first-kept of h k before after) refl

  module _ (before after : List Section) (e : before ++ after ≡ m.sections) where
    -- The module halfway through the loop.
    abbrev halfway : Module
    halfway = record m { sections = map (reread (parse_name m)) before ++ after }

    same_first :
        {A : Type 0} (of : Section → Option A)
        → ((c : CustomSection) → of (Section.custom c) ≡ none)
        → ((n : NameSection) → of (Section.name n) ≡ none)
        → first of halfway.sections ≡ first of m.sections
    same_first of h k = first-kept of h k before after ∙ ap (first of) e

    same_imports : import_count function_type halfway ≡ import_count function_type m
    unfolding import_count
    same_imports =
        ap
          (λ (o : Option (List ImportEntry)). elim o [
            | some entries ↦ count_imports function_type entries
            | none ↦ 0
          ])
          (same_first import_of (λ c. refl) (λ n. refl))

    same_function_names : deserialize_function_names halfway ≡ deserialize_function_names m
    unfolding deserialize_function_names functions_space
    same_function_names = rw (same_imports, same_first function_of (λ c. refl) (λ n. refl)) refl

    same_local_names : deserialize_local_names halfway ≡ deserialize_local_names m
    unfolding deserialize_local_names
    same_local_names =
        rw
          (
            same_first function_of (λ c. refl) (λ n. refl),
            same_first type_of (λ c. refl) (λ n. refl),
            same_first code_of (λ c. refl) (λ n. refl),
          )
          refl

    same_branch : (t len : ℕ) (src : Bytes) → names_of halfway t len src ≡ names_of m t len src
    unfolding names_of
    same_branch t len src = elim (Bool-cases (t == 0)) [
      | inl text ↦ rw text refl
      | inr other ↦ elim (Bool-cases (t == 1)) [
        | inl functions ↦ rw (other, functions, same_function_names) refl
        | inr others ↦ elim (Bool-cases (t == 2)) [
          | inl locals ↦ rw (other, others, locals, same_local_names) refl
          | inr rest ↦ rw (other, others, rest) refl
        ]
      ]
    ]

    same_names :
        (src : Bytes) → deserialize_name_section halfway src ≡ deserialize_name_section m src
    unfolding deserialize_name_section
    same_names src = same_after _ _ (VarUint7.deserialize src) (λ t.
        λ rest. same_after _ _ (VarUint32.deserialize rest) (λ len. λ left. same_branch t len left))

    pub stable_name : (s : Section) → parse_name halfway s ≡ parse_name m s
    unfolding parse_name
    stable_name (Section.custom c) = rw (same_names c.payload) refl
    stable_name s = refl
