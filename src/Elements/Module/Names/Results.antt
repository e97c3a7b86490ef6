-- ===== src/Elements/Module/Names/Results.antt =====
-- What `parse_names` and `parse_reloc` return.
use parity_wasm.Base.{
  ℕ, ◌≡◌, refl, ap, sym, subst, ◌∙◌, inl, inr, true, List, [], ◌∷◌, map, append-nil, Option, none,
  some, ok, length, All, ◌<◌, ◌^◌,
}
use parity_wasm.Elements.Error.{Error}
use parity_wasm.Elements.Codec.{◌⊹◌, Restores}
use parity_wasm.Elements.Primitives.ByteOrder.{LittleEndian}
use parity_wasm.Elements.Primitives.Text
use parity_wasm.Elements.Section.SectionReader.{IsShort}
use parity_wasm.Elements.Section.RoundTrip.{IsText, reloc_section_reread}
use parity_wasm.Elements.NameSection.{NameSection}
use parity_wasm.Elements.RelocSection.{
  RelocSection, serialize_reloc_payload, deserialize_reloc_section,
}
use parity_wasm.Elements.RelocSection.RoundTrip.{IsNamed, IsEntry, RelocSection-Restores}
use parity_wasm.Elements.Section as Section
use parity_wasm.Elements.Section.{Section, CustomSection, section_id}
use parity_wasm.Elements.Module.{Module, first, code_of, function_of, count_of}
use parity_wasm.Elements.Module.Order.{IsOrdered, none_left, anywhere, ascending, IsValid}
use parity_wasm.Elements.Module.Names.{
  parse_name, parse_names, parse_reloc, parse_relocation, relocated, starts_with, reloc_header,
  finish, Parsed, all_parsed, some_failed,
}
use parity_wasm.Elements.Module.Names.Each.{
  loop_lem, reread, errors_from, stable_name, renamed, first-kept,
}
use parity_wasm.Elements.Module.Names.Total.{parse_name-IsAnswer, parse_relocation-IsAnswer}

abbrev pub parsed_module : Parsed → Module
parsed_module (all_parsed m) = m
parsed_module (some_failed _ m) = m

-- `parse_names` reads every section again by itself, against the module as it was: the names that it
-- has put in place by then make no difference. It returns the sections and the errors with their
-- indices, and never panics.
pub parse_names_each :
    (m : Module)
    → parse_names m
      ≡ finish m
          (ok (errors_from (parse_name m) 0 m.sections, map (reread (parse_name m)) m.sections))
unfolding parse_names
parse_names_each m = ap (finish m) (
    loop_lem (λ sections. parse_name (record m { sections = sections })) (parse_name m) m.sections
      (parse_name-IsAnswer m) (λ before after s e. stable_name m before after e s) 0 [] m.sections
      refl)

-- `parse_reloc` reads every section again by itself. It returns the sections and the errors with
-- their indices, and never panics.
pub parse_reloc_each :
    (m : Module)
    → parse_reloc m
      ≡ finish m
          (ok (errors_from parse_relocation 0 m.sections, map (reread parse_relocation) m.sections))
unfolding parse_reloc
parse_reloc_each m = ap (finish m) (
    loop_lem (λ _. parse_relocation) parse_relocation m.sections parse_relocation-IsAnswer
      (λ before after s e. refl) 0 [] m.sections refl)

finished :
    (m : Module) (errors : List (ℕ × Error)) (ss : List Section)
    → (p : Parsed) × (finish m (ok (errors, ss)) ≡ ok p)
      × (parsed_module p ≡ record m { sections = ss })
unfolding finish
finished m [] ss = (all_parsed _, refl, refl)
finished m (e ∷ errors) ss = (some_failed _ _, refl, refl)

module _ (m : Module) where
  same_id : (s : Section) → section_id (reread (parse_name m) s) ≡ section_id s
  unfolding section_id
  same_id s = elim (renamed m s) [
    | inl e ↦ ap section_id e
    | inr (c, n, e, e') ↦ ap section_id e' ∙ sym (ap section_id e)
  ]

  reread-IsOrdered :
      {last : ℕ} {ss : List Section}
      → IsOrdered last ss
      → IsOrdered last (map (reread (parse_name m)) ss)
  reread-IsOrdered none_left = none_left
  reread-IsOrdered (anywhere {s} e o) = anywhere (same_id s ∙ e) (reread-IsOrdered o)
  reread-IsOrdered {last} (ascending {s} {ss} h o) =
      let id = same_id s in
      ascending (subst (λ k. last < k) (sym id) h)
        (subst (λ k. IsOrdered k (map (reread (parse_name m)) ss)) (sym id) (reread-IsOrdered o))

  same_counts :
      {A : Type 0} (of : Section → Option (List A))
      → ((c : CustomSection) → of (Section.custom c) ≡ none)
      → ((n : NameSection) → of (Section.name n) ≡ none)
      → count_of (first of (map (reread (parse_name m)) m.sections))
        ≡ count_of (first of m.sections)
  same_counts of h k =
      let all = first-kept m of h k m.sections [] in
      ap count_of (rw (append-nil, append-nil) at all)

  -- A valid module stays valid as its names are parsed, whether some of them fail or not.
  pub parse_names-IsValid :
      IsValid m → (p : Parsed) × (parse_names m ≡ ok p) × IsValid (parsed_module p)
  parse_names-IsValid v =
      let sections = map (reread (parse_name m)) m.sections in
      let (p, e, same) = finished m (errors_from (parse_name m) 0 m.sections) sections in
      let valid : IsValid (record m { sections = sections }) = record {
        first_version = v.first_version;
        in_order = reread-IsOrdered v.in_order;
        consistent =
            same_counts code_of (λ c. refl) (λ n. refl)
            ∙ v.consistent
            ∙ sym (same_counts function_of (λ c. refl) (λ n. refl));
      } in
      (p, parse_names_each m ∙ e, subst IsValid (sym same) valid)

-- A section of relocations survives being written, read and parsed: `Section::serialize` writes it,
-- `Section::deserialize` reads a custom section off that, whatever follows it, and a round of
-- `parse_reloc` parses this one as the section that was written. Its name is UTF-8 of a length of 32
-- bits and begins with `reloc.`, it has the name of another section, UTF-8 too, exactly if its id is 0,
-- its numbers and lengths are of their widths, and what it is written as fits a length of 32 bits.
pub reloc_reparsed :
    (le : LittleEndian) (r : RelocSection)
    → starts_with reloc_header r.name ≡ true
    → IsText r.name
    → IsNamed r.section_id r.relocation_section_name
    → length r.entries < 2 ^ 32
    → All IsEntry r.entries
    → IsShort (Text.serialize r.name ⊹ serialize_reloc_payload r)
    → (c : CustomSection) × Restores
        (Section.serialize le (Section.reloc r))
        (Section.deserialize le)
        (Section.custom c)
      × (parse_relocation (Section.custom c) ≡ ok (some (Section.reloc r)))
unfolding parse_relocation relocated
reloc_reparsed le r header text named few entries short =
    let back = RelocSection-Restores r named few entries in
    let read : deserialize_reloc_section r.name back.bytes ≡ ok (r, []) =
      rw append-nil at (back.reads []) in
    let short_payload = rw back.written at short in
    (
      record { name = r.name; payload = back.bytes },
      reloc_section_reread le r back.bytes back.written text short_payload,
      rw (header, read) refl,
    )
