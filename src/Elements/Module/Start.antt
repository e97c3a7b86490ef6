-- ===== src/Elements/Module/Start.antt =====
-- The start section: `set_start_section` and `clear_start_section`.
use parity_wasm.Base.{
  ℕ, ◌≤◌, ◌<◌, ◌≡◌, ◌↔◌, refl, ap, sym, ◌∙◌, subst, true, false, Bool-cases, ◌⊎◌, inl, inr, List,
  [], ◌∷◌, Option, none, some, All, arith,
}
use parity_wasm.Elements.Section.{Section, section_id}
use parity_wasm.Elements.Module.{
  Module, first, start_of, is_start, with_start, without_start, start_section, set_start_section,
  clear_start_section, count_of, code_of, function_of,
}
use parity_wasm.Elements.Module.Order.{IsOrdered, none_left, anywhere, ascending, IsValid}

is_start_lem : (s : Section) → is_start s ≡ true → (index : ℕ) × (s ≡ Section.start index)
is_start_lem (Section.start index) e = (index, refl)
is_start_lem s e = cc e

not_start : (s : Section) → is_start s ≡ false → start_of s ≡ none
not_start (Section.start index) e = cc e
not_start s e = refl

start-with_start : (i : ℕ) (ss : List Section) → first start_of (with_start i ss) ≡ some i
unfolding first with_start
start-with_start i [] = refl
start-with_start i (s ∷ ss) = elim (Bool-cases (is_start s)) [
  | inl e ↦ rw e refl
  | inr e ↦ rw (e, not_start s e, start-with_start i ss) refl
]

first-with_start :
    {A : Type 0} (of : Section → Option A) (i : ℕ) (ss : List Section)
    → ((k : ℕ) → of (Section.start k) ≡ none)
    → first of (with_start i ss) ≡ first of ss
unfolding first with_start
first-with_start of i [] h = rw (h i) refl
first-with_start of i (s ∷ ss) h = elim (Bool-cases (is_start s)) [
  | inl e ↦ let (k, same) = is_start_lem s e in rw (e, h i, ap of same ∙ h k) refl
  | inr e ↦ rw (e, first-with_start of i ss h) refl
]

-- After `set_start_section` the start section is the given one, and every other section is found as
-- before.
pub start-set_start :
    (i : ℕ) (m : Module)
    → (start_section (set_start_section i m) ≡ some i)
      × ((A : Type 0) (of : Section → Option A)
          → ((k : ℕ) → of (Section.start k) ≡ none)
          → first of (set_start_section i m).sections ≡ first of m.sections)
unfolding set_start_section
start-set_start i m = (start-with_start i m.sections, λ A of h. first-with_start of i m.sections h)

-- Sections that stand before a start section where the ids ascend.
abbrev pub AreEarly : List Section → Type 0
AreEarly ss = All (λ s. section_id s < 8) ss

tail_none :
    (s : Section) (ss : List Section)
    → first start_of (s ∷ ss) ≡ none
    → is_start s ≡ false × (first start_of ss ≡ none)
unfolding first
tail_none s ss e = elim (Bool-cases (is_start s)) [
  | inl start ↦ let (k, same) = is_start_lem s start in absurd (cc (rw same at e))
  | inr other ↦ (other, rw (not_start s other) at e)
]

IsOrdered-early :
    {last : ℕ} (i : ℕ) (ss : List Section)
    → first start_of ss ≡ none
    → last < 8
    → IsOrdered last ss
    → AreEarly ss
    → IsOrdered last (with_start i ss)
unfolding with_start section_id
IsOrdered-early i [] e lt o h = ascending (omega arith) none_left
IsOrdered-early i (s ∷ ss) e lt (anywhere z o) (h, hs) =
    let (other, e') = tail_none s ss e in rw other (anywhere z (IsOrdered-early i ss e' lt o hs))
IsOrdered-early i (s ∷ ss) e lt (ascending l o) (h, hs) =
    let (other, e') = tail_none s ss e in rw other (ascending l (IsOrdered-early i ss e' h o hs))

IsOrdered-tail :
    {last : ℕ} {s : Section} {ss : List Section}
    → IsOrdered last (s ∷ ss)
    → ((section_id s ≡ 0) × IsOrdered last ss) ⊎ (last < section_id s × IsOrdered (section_id s) ss)
IsOrdered-tail (anywhere z o) = inl (z, o)
IsOrdered-tail (ascending l o) = inr (l, o)

last_early :
    {last : ℕ} (i : ℕ) (ss : List Section)
    → first start_of ss ≡ none
    → IsOrdered last (with_start i ss)
    → (last < 8) × AreEarly ss
unfolding with_start section_id
last_early i [] e (anywhere z o) = absurd (omega arith)
last_early i [] e (ascending l o) = (l, tt)
last_early {last} i (s ∷ ss) e o =
    let (other, e') = tail_none s ss e in
    let kept : IsOrdered last (s ∷ with_start i ss) = rw other at o in
    elim (IsOrdered-tail kept) [
      | inl (z, rest) ↦ let (lt, hs) = last_early i ss e' rest in (lt, (omega (arith, z), hs))
      | inr (l, rest) ↦ let (lt, hs) = last_early i ss e' rest in (omega (arith, l, lt), (lt, hs))
    ]

-- `set_start_section` of a valid module without a start section leaves it valid exactly if every
-- section has an id below 8: it puts the section at the end.
pub set_start-IsValid_iff :
    (i : ℕ) (m : Module)
    → IsValid m
    → start_section m ≡ none
    → IsValid (set_start_section i m) ↔ AreEarly m.sections
unfolding set_start_section
set_start-IsValid_iff i m v e = (
  (λ w. (last_early i m.sections e w.in_order).1),
  λ h. record {
    first_version = v.first_version;
    in_order = IsOrdered-early i m.sections e (omega arith) v.in_order h;
    consistent =
        ap count_of (first-with_start code_of i m.sections (λ k. refl))
        ∙ v.consistent
        ∙ sym (ap count_of (first-with_start function_of i m.sections (λ k. refl)));
  },
)

-- Where the ids go on from 8, there is no start section.
no_start : {last : ℕ} (ss : List Section) → 8 ≤ last → IsOrdered last ss → first start_of ss ≡ none
unfolding first section_id
no_start [] h o = refl
no_start {last} (s ∷ ss) h o = elim (Bool-cases (is_start s)) [
  | inl e ↦
      let (k, same) = is_start_lem s e in
      let start : IsOrdered last (Section.start k ∷ ss) =
        subst (λ s'. IsOrdered last (s' ∷ ss)) same o in
      elim (IsOrdered-tail start) [
        | inl (z, rest) ↦ absurd (omega (arith, z))
        | inr (l, rest) ↦ absurd (omega (arith, l, h))
      ]
  | inr e ↦ elim (IsOrdered-tail o) [
    | inl (z, rest) ↦ rw (not_start s e) (no_start ss h rest)
    | inr (l, rest) ↦ rw (not_start s e) (no_start ss (omega (arith, l, h)) rest)
  ]
]

start-without_start :
    {last : ℕ} (ss : List Section) → IsOrdered last ss → first start_of (without_start ss) ≡ none
unfolding without_start first section_id
start-without_start [] o = refl
start-without_start {last} (s ∷ ss) o = elim (Bool-cases (is_start s)) [
  | inl e ↦
      let (k, same) = is_start_lem s e in
      let start : IsOrdered last (Section.start k ∷ ss) =
        subst (λ s'. IsOrdered last (s' ∷ ss)) same o in
      elim (IsOrdered-tail start) [
        | inl (z, rest) ↦ absurd (omega (arith, z))
        | inr (l, rest) ↦ rw e (no_start ss (omega arith) rest)
      ]
  | inr e ↦ elim (IsOrdered-tail o) [
    | inl (z, rest) ↦ rw (e, not_start s e) (start-without_start ss rest)
    | inr (l, rest) ↦ rw (e, not_start s e) (start-without_start ss rest)
  ]
]

first-without_start :
    {A : Type 0} (of : Section → Option A) (ss : List Section)
    → ((k : ℕ) → of (Section.start k) ≡ none)
    → first of (without_start ss) ≡ first of ss
unfolding first without_start
first-without_start of [] h = refl
first-without_start of (s ∷ ss) h = elim (Bool-cases (is_start s)) [
  | inl e ↦ let (k, same) = is_start_lem s e in rw (e, ap of same ∙ h k) refl
  | inr e ↦ rw (e, first-without_start of ss h) refl
]

-- `clear_start_section` of a valid module leaves no start section; every other section is found as
-- before.
pub start-clear_start :
    (m : Module)
    → IsValid m
    → (start_section (clear_start_section m) ≡ none)
      × ((A : Type 0) (of : Section → Option A)
          → ((k : ℕ) → of (Section.start k) ≡ none)
          → first of (clear_start_section m).sections ≡ first of m.sections)
unfolding clear_start_section
start-clear_start m v =
    (start-without_start m.sections v.in_order, λ A of h. first-without_start of m.sections h)
