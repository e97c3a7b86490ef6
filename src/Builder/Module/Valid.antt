-- ===== src/Builder/Module/Valid.antt =====
-- What is built is a valid module.
use parity_wasm.Base.{
  ℕ, ◌≤◌, ◌<◌, ◌≡◌, refl, sym, ◌∙◌, List, [], ◌∷◌, Option, none, some, length, All, arith,
}
use parity_wasm.Elements.Primitives.ByteOrder.{LittleEndian}
use parity_wasm.Elements.Section.{Section, section_id}
use parity_wasm.Elements.Module.{module_new, first, code_of, function_of, count_of}
use parity_wasm.Elements.Module.Order.{IsOrdered, none_left, anywhere, ascending, IsValid}
use parity_wasm.Builder.Module.{ModuleScaffold, push_list, push_start, scaffold_sections, build}

lower : {k last : ℕ} {ss : List Section} → k ≤ last → IsOrdered last ss → IsOrdered k ss
lower h none_left = none_left
lower h (anywhere e o) = anywhere e (lower h o)
lower h (ascending l o) = ascending (omega arith) o

abbrev pub AreOther : List Section → Type 0
AreOther ss = All (λ s. section_id s ≡ 0) ss

others-IsOrdered : (last : ℕ) (ss : List Section) → AreOther ss → IsOrdered last ss
others-IsOrdered last [] h = none_left
others-IsOrdered last (s ∷ ss) (h, hs) = anywhere h (others-IsOrdered last ss hs)

module _ {A : Type 0} (section : List A → Section) where
  push-IsOrdered :
      {last id : ℕ} (xs : List A) {rest : List Section}
      → ((ys : List A) → section_id (section ys) ≡ id)
      → last < id
      → IsOrdered id rest
      → IsOrdered last (push_list section xs rest)
  unfolding push_list
  push-IsOrdered [] e h o = lower (omega (arith, h)) o
  push-IsOrdered {last} {id} (x ∷ xs) e h o =
      let same = e (x ∷ xs) in ascending (omega (arith, same, h)) (rw same o)

  first-push :
      {B : Type 0} (of : Section → Option B) (xs : List A) (rest : List Section)
      → ((ys : List A) → of (section ys) ≡ none)
      → first of (push_list section xs rest) ≡ first of rest
  unfolding push_list first
  first-push of [] rest h = refl
  first-push of (x ∷ xs) rest h = rw (h (x ∷ xs)) refl

  count-push :
      (of : Section → Option (List A)) (xs : List A) (rest : List Section)
      → ((ys : List A) → of (section ys) ≡ some ys)
      → first of rest ≡ none
      → count_of (first of (push_list section xs rest)) ≡ length xs
  unfolding push_list first
  count-push of [] rest h e = rw e refl
  count-push of (x ∷ xs) rest h e = rw (h (x ∷ xs)) refl

start-IsOrdered :
    {last : ℕ} (start : Option ℕ) {rest : List Section}
    → last < 8
    → IsOrdered 8 rest
    → IsOrdered last (push_start start rest)
unfolding push_start section_id
start-IsOrdered (some index) h o = ascending h o
start-IsOrdered none h o = lower (omega arith) o

first-start :
    {B : Type 0} (of : Section → Option B) (start : Option ℕ) (rest : List Section)
    → ((k : ℕ) → of (Section.start k) ≡ none)
    → first of (push_start start rest) ≡ first of rest
unfolding push_start first
first-start of (some index) rest h = rw (h index) refl
first-start of none rest h = refl

no_code : (s : Section) → section_id s ≡ 0 → code_of s ≡ none
unfolding section_id
no_code (Section.code bodies) e = absurd (omega arith)
no_code s e = refl

no_function : (s : Section) → section_id s ≡ 0 → function_of s ≡ none
unfolding section_id
no_function (Section.function entries) e = absurd (omega arith)
no_function s e = refl

none_of :
    {B : Type 0} (of : Section → Option B) (ss : List Section)
    → ((s : Section) → section_id s ≡ 0 → of s ≡ none)
    → AreOther ss
    → first of ss ≡ none
unfolding first
none_of of [] h hs = refl
none_of of (s ∷ ss) h (e, es) = rw (h s e) (none_of of ss h es)

module _ (m : ModuleScaffold) (others : AreOther m.other) where
  sections-IsOrdered : IsOrdered 0 (scaffold_sections m)
  unfolding scaffold_sections section_id
  sections-IsOrdered =
      push-IsOrdered Section.type m.types (λ ys. refl) (omega arith)
        (push-IsOrdered Section.import m.import (λ ys. refl) (omega arith)
          (push-IsOrdered Section.function m.functions (λ ys. refl) (omega arith)
            (push-IsOrdered Section.table m.table (λ ys. refl) (omega arith)
              (push-IsOrdered Section.memory m.memory (λ ys. refl) (omega arith)
                (push-IsOrdered Section.global m.global (λ ys. refl) (omega arith)
                  (push-IsOrdered Section.export m.export (λ ys. refl) (omega arith)
                    (start-IsOrdered m.start (omega arith) (
                      push-IsOrdered Section.element m.element (λ ys. refl) (omega arith)
                        (push-IsOrdered Section.code m.code (λ ys. refl) (omega arith)
                          (push-IsOrdered Section.data_segments m.data_segments (λ ys. refl)
                            (omega arith) (others-IsOrdered 11 m.other others)))))))))))

  bodies_counted : count_of (first code_of (scaffold_sections m)) ≡ length m.code
  unfolding scaffold_sections
  bodies_counted =
      rw
        (
          first-push Section.type code_of m.types _ (λ ys. refl),
          first-push Section.import code_of m.import _ (λ ys. refl),
          first-push Section.function code_of m.functions _ (λ ys. refl),
          first-push Section.table code_of m.table _ (λ ys. refl),
          first-push Section.memory code_of m.memory _ (λ ys. refl),
          first-push Section.global code_of m.global _ (λ ys. refl),
          first-push Section.export code_of m.export _ (λ ys. refl),
          first-start code_of m.start _ (λ ys. refl),
          first-push Section.element code_of m.element _ (λ ys. refl),
        )
        (count-push Section.code code_of m.code _ (λ ys. refl)
          (first-push Section.data_segments code_of m.data_segments m.other (λ ys. refl)
            ∙ none_of code_of m.other no_code others))

  functions_counted : count_of (first function_of (scaffold_sections m)) ≡ length m.functions
  unfolding scaffold_sections
  functions_counted =
      let rest =
        first-push Section.data_segments function_of m.data_segments m.other (λ ys. refl)
        ∙ none_of function_of m.other no_function others in
      rw
        (
          first-push Section.type function_of m.types _ (λ ys. refl),
          first-push Section.import function_of m.import _ (λ ys. refl),
        )
        (count-push Section.function function_of m.functions _ (λ ys. refl)
          (rw
            (
              first-push Section.table function_of m.table _ (λ ys. refl),
              first-push Section.memory function_of m.memory _ (λ ys. refl),
              first-push Section.global function_of m.global _ (λ ys. refl),
              first-push Section.export function_of m.export _ (λ ys. refl),
              first-start function_of m.start _ (λ ys. refl),
              first-push Section.element function_of m.element _ (λ ys. refl),
              first-push Section.code function_of m.code _ (λ ys. refl),
            )
            rest))

  -- What is built is a valid module if there are as many bodies as functions and the other sections
  -- are custom ones.
  pub build-IsValid :
      (le : LittleEndian) → length m.code ≡ length m.functions → IsValid (build le m)
  unfolding build module_new
  build-IsValid le e = record {
    first_version = refl;
    in_order = sections-IsOrdered;
    consistent = bodies_counted ∙ e ∙ sym functions_counted;
  }
