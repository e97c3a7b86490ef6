-- ===== src/Builder/Module/Apart.antt =====
-- A module that was built is taken apart again, without its other sections.
use parity_wasm.Base.{ℕ, ◌≡◌, refl, List, [], ◌∷◌, Option, none, some, arith}
use parity_wasm.Elements.Primitives.ByteOrder.{LittleEndian}
use parity_wasm.Elements.Section.{Section, section_id}
use parity_wasm.Elements.Module.{module_new}
use parity_wasm.Builder.Module.{
  ModuleScaffold, scaffold_default, absorb, scaffold_of, push_list, push_start, scaffold_sections,
  build, with_module,
}
use parity_wasm.Builder.Module.Valid.{AreOther}

-- A scaffold that has got every list so far from `rest` gets this one from the section before it.
absorbs :
    {A : Type 0} (section : List A → Section) (set : List A → ModuleScaffold) (xs : List A)
    (rest : List Section)
    → scaffold_of rest ≡ set []
    → ((ys : List A) → absorb (section ys) (set []) ≡ set ys)
    → scaffold_of (push_list section xs rest) ≡ set xs
unfolding scaffold_of push_list
absorbs section set [] rest e h = e
absorbs section set (x ∷ xs) rest e h = rw e (h (x ∷ xs))

absorbs_start :
    (set : Option ℕ → ModuleScaffold) (start : Option ℕ) (rest : List Section)
    → scaffold_of rest ≡ set none
    → ((i : ℕ) → absorb (Section.start i) (set none) ≡ set (some i))
    → scaffold_of (push_start start rest) ≡ set start
unfolding scaffold_of push_start
absorbs_start set none rest e h = e
absorbs_start set (some i) rest e h = rw e (h i)

absorb-other : (s : Section) (m : ModuleScaffold) → section_id s ≡ 0 → absorb s m ≡ m
unfolding absorb section_id
absorb-other (Section.type x) m e = absurd (omega arith)
absorb-other (Section.import x) m e = absurd (omega arith)
absorb-other (Section.function x) m e = absurd (omega arith)
absorb-other (Section.table x) m e = absurd (omega arith)
absorb-other (Section.memory x) m e = absurd (omega arith)
absorb-other (Section.global x) m e = absurd (omega arith)
absorb-other (Section.export x) m e = absurd (omega arith)
absorb-other (Section.start x) m e = absurd (omega arith)
absorb-other (Section.element x) m e = absurd (omega arith)
absorb-other (Section.code x) m e = absurd (omega arith)
absorb-other (Section.data_segments x) m e = absurd (omega arith)
absorb-other s m e = refl

scaffold_of-others : (ss : List Section) → AreOther ss → scaffold_of ss ≡ scaffold_default
unfolding scaffold_of
scaffold_of-others [] h = refl
scaffold_of-others (s ∷ ss) (h, hs) = rw (scaffold_of-others ss hs) (absorb-other s _ h)

-- `with_module` of a module that was built from a scaffold gives the scaffold back without its other
-- sections, which are custom ones: they are lost.
pub with_module-build :
    (le : LittleEndian) (m : ModuleScaffold)
    → AreOther m.other
    → with_module (build le m) ≡ record m { other = [] }
unfolding with_module build module_new scaffold_sections absorb
with_module-build le m others =
    let p0 = scaffold_default in
    let e0 = scaffold_of-others m.other others in
    let p1 : ModuleScaffold = record p0 { data_segments = m.data_segments } in
    let e1 =
      absorbs Section.data_segments (λ xs. record p0 { data_segments = xs }) m.data_segments _ e0
        (λ ys. refl) in
    let p2 : ModuleScaffold = record p1 { code = m.code } in
    let e2 = absorbs Section.code (λ xs. record p1 { code = xs }) m.code _ e1 (λ ys. refl) in
    let p3 : ModuleScaffold = record p2 { element = m.element } in
    let e3 =
      absorbs Section.element (λ xs. record p2 { element = xs }) m.element _ e2 (λ ys. refl) in
    let p4 : ModuleScaffold = record p3 { start = m.start } in
    let e4 = absorbs_start (λ i. record p3 { start = i }) m.start _ e3 (λ i. refl) in
    let p5 : ModuleScaffold = record p4 { export = m.export } in
    let e5 = absorbs Section.export (λ xs. record p4 { export = xs }) m.export _ e4 (λ ys. refl) in
    let p6 : ModuleScaffold = record p5 { global = m.global } in
    let e6 = absorbs Section.global (λ xs. record p5 { global = xs }) m.global _ e5 (λ ys. refl) in
    let p7 : ModuleScaffold = record p6 { memory = m.memory } in
    let e7 = absorbs Section.memory (λ xs. record p6 { memory = xs }) m.memory _ e6 (λ ys. refl) in
    let p8 : ModuleScaffold = record p7 { table = m.table } in
    let e8 = absorbs Section.table (λ xs. record p7 { table = xs }) m.table _ e7 (λ ys. refl) in
    let p9 : ModuleScaffold = record p8 { functions = m.functions } in
    let e9 =
      absorbs Section.function (λ xs. record p8 { functions = xs }) m.functions _ e8 (λ ys. refl) in
    let p10 : ModuleScaffold = record p9 { import = m.import } in
    let e10 = absorbs Section.import (λ xs. record p9 { import = xs }) m.import _ e9 (λ ys. refl) in
    let p11 : ModuleScaffold = record p10 { types = m.types } in
    let e11 = absorbs Section.type (λ xs. record p10 { types = xs }) m.types _ e10 (λ ys. refl) in
    e11
