-- ===== src/Examples/Modules.antt =====
-- Modules that are read, parsed again, peeked at and changed.
use parity_wasm.Base.{
  ℕ, ◌≤◌, ◌≡◌, ◌↔◌, ◌⊎◌, refl, [], ◌∷◌, ◌++◌, map, length, arith, lt_wf, true, ok, err, none, some,
  Option,
}
use native.Mathlib.Decide.{dec_lt}
use parity_wasm.Elements.Error.{unexpected_eof, too_many_locals}
use parity_wasm.Elements.Codec.{Bytes, Reads, Restores, ◌⊹◌}
use parity_wasm.Examples.Words.{le}
use parity_wasm.Examples.Sections.{written-IsShort}
use parity_wasm.Elements.Primitives.VarUint32
use parity_wasm.Elements.Primitives.VarUint7
use parity_wasm.Elements.Primitives.VarInt7
use parity_wasm.Elements.Primitives.CountedList
use parity_wasm.Elements.Primitives.Text
use parity_wasm.Elements.Primitives.Unsigned.{write_unsigned}
use parity_wasm.Elements.Types.{i32, i64, serialize_value_type}
use parity_wasm.Elements.Ops.Blocks as Blocks
use parity_wasm.Elements.Func.{
  FuncBody, serialize_func_body, deserialize_func_body, serialize_body, serialize_local,
}
use parity_wasm.Elements.Func.Locals.{many_locals_refused}
use parity_wasm.Elements.Section as Section
use parity_wasm.Elements.Section.{Section, CustomSection}
use parity_wasm.Elements.Section.SectionReader.{IsShort}
use parity_wasm.Elements.Section.Total.{section_end_iff}
use parity_wasm.Elements.Module.{
  Module, module_new, first, start_section, set_start_section, clear_start_section,
}
use parity_wasm.Elements.Module.Codec as Module
use parity_wasm.Elements.Module.Order.{IsValid, none_left, ascending, anywhere}
use parity_wasm.Elements.Module.Total.{Settles, deserialize-Settles}
use parity_wasm.Elements.Module.Start.{
  start-set_start, start-clear_start, set_start-IsValid_iff, AreEarly,
}
use parity_wasm.Elements.Module.Peek.{peek_size}
use parity_wasm.Elements.Module.Peek.Bounds.{peek_size_bounded}
use parity_wasm.Elements.Module.Peek.Frames.{IsFramed, last_frame, frame, peek_size-framed}
use parity_wasm.Elements.Module.Names.{parse_names, parse_name, parse_relocation, finish, Parsed}
use parity_wasm.Elements.Module.Names.Each.{reread, errors_from}
use parity_wasm.Elements.Module.Names.Results.{
  parse_names_each, parse_names-IsValid, reloc_reparsed, parsed_module,
}
use parity_wasm.Elements.RelocSection.{
  RelocSection, function_index_leb, serialize_reloc_payload, serialize_relocation_entry,
  serialize_section_name,
}

-- The first two bytes of a module.
deserialize-Settles_example : Settles (Module.deserialize le (0x00 ∷ 0x61 ∷ []))
deserialize-Settles_example = deserialize-Settles le (0x00 ∷ 0x61 ∷ [])

abbrev nothing : Bytes
nothing = []

-- A section of types of which the length is missing.
section_end_iff_example :
    (Section.deserialize le (1 ∷ []) ≡ err unexpected_eof) ↔ (1 ∷ [] ≡ nothing)
section_end_iff_example = section_end_iff le (1 ∷ [])

abbrev crowded : FuncBody
crowded = record {
  locals =
      record { count = 2147483648; value_type = i32 }
      ∷ record { count = 2147483648; value_type = i64 }
      ∷ [];
  instructions = [];
}

crowded_code : Blocks.serialize le [] ≡ ok []
unfolding Blocks.serialize
crowded_code = refl

crowded_written :
    serialize_body le crowded
    ≡ ok (2 ∷ 0x80 ∷ 0x80 ∷ 0x80 ∷ 0x80 ∷ 8 ∷ 0x7f ∷ 0x80 ∷ 0x80 ∷ 0x80 ∷ 0x80 ∷ 8 ∷ 0x7e ∷ [])
unfolding serialize_body serialize_local serialize_value_type Blocks.serialize CountedList.serialize
    CountedList.serialize_items VarUint32.serialize VarUint32.serialize_usize VarInt7.serialize
    write_unsigned lt_wf dec_lt
crowded_written = refl

crowded-IsShort : IsShort (serialize_body le crowded)
crowded-IsShort = written-IsShort _ _ crowded_written (omega arith)

many_locals_refused_example :
    (bs : Bytes) × (serialize_func_body le crowded ≡ ok bs)
    × ((rest : Bytes) → deserialize_func_body le (bs ++ rest) ≡ err too_many_locals)
many_locals_refused_example =
    many_locals_refused le crowded [] (omega arith) (omega arith, (omega arith, tt)) (omega arith)
      crowded_code crowded-IsShort

-- A module of a type section that is empty, a function and its body, and the name "hi".
abbrev hi : Module
hi = module_new le (
    Section.type []
    ∷ Section.custom
        (record { name = 0x6e ∷ 0x61 ∷ 0x6d ∷ 0x65 ∷ []; payload = 0 ∷ 3 ∷ 2 ∷ 0x68 ∷ 0x69 ∷ [] })
    ∷ [])

hi-IsValid : IsValid hi
unfolding first Section.section_id module_new
hi-IsValid = record {
  first_version = refl;
  in_order = ascending (omega arith) (anywhere refl none_left);
  consistent = refl;
}

parse_names_each_example :
    parse_names hi
    ≡ finish hi
        (ok (errors_from (parse_name hi) 0 hi.sections, map (reread (parse_name hi)) hi.sections))
parse_names_each_example = parse_names_each hi

parse_names-IsValid_example : (p : Parsed) × (parse_names hi ≡ ok p) × IsValid (parsed_module p)
parse_names-IsValid_example = parse_names-IsValid hi hi-IsValid

-- "reloc.", of the section 1.
abbrev moved : RelocSection
moved = record {
  name = 0x72 ∷ 0x65 ∷ 0x6c ∷ 0x6f ∷ 0x63 ∷ 0x2e ∷ [];
  section_id = 1;
  relocation_section_name = none;
  entries = function_index_leb 3 4 ∷ [];
}

moved_text : Text.is_utf8 moved.name ≡ true
unfolding Text.is_utf8
moved_text = refl

moved_written :
    Text.serialize moved.name ⊹ serialize_reloc_payload moved
    ≡ ok (6 ∷ 0x72 ∷ 0x65 ∷ 0x6c ∷ 0x6f ∷ 0x63 ∷ 0x2e ∷ 1 ∷ 1 ∷ 0 ∷ 3 ∷ 4 ∷ [])
unfolding Text.serialize serialize_reloc_payload serialize_section_name serialize_relocation_entry
    CountedList.serialize CountedList.serialize_items VarUint32.serialize VarUint32.serialize_usize
    VarUint7.serialize write_unsigned lt_wf dec_lt
moved_written = refl

reloc_reparsed_example :
    (c : CustomSection) × Restores
      (Section.serialize le (Section.reloc moved))
      (Section.deserialize le)
      (Section.custom c)
    × (parse_relocation (Section.custom c) ≡ ok (some (Section.reloc moved)))
reloc_reparsed_example =
    reloc_reparsed le moved refl (moved_text, omega arith) (omega arith) (omega arith)
      ((omega arith, omega arith), tt) (written-IsShort _ _ moved_written (omega arith))

-- A header, and two sections of one byte each.
abbrev header : Bytes
header = 0x00 ∷ 0x61 ∷ 0x73 ∷ 0x6d ∷ 1 ∷ 0 ∷ 0 ∷ 0 ∷ []

abbrev two_sections : Bytes
two_sections = 1 ∷ 1 ∷ 0 ∷ 3 ∷ 1 ∷ 0 ∷ []

peek_size_bounded_example :
    (n : ℕ) × (peek_size (header ++ two_sections) ≡ ok n) × (n ≤ 14) × ((n ≡ 0) ⊎ (8 ≤ n))
peek_size_bounded_example = peek_size_bounded (header ++ two_sections)

one_byte : Reads VarUint32.deserialize (1 ∷ []) 1
one_byte rest =
    let r = VarUint32.one_byte-Restores 1 (omega arith) in
    let same : r.bytes ≡ 1 ∷ [] = cc r.written in rw same at (r.reads rest)

two-IsFramed : IsFramed two_sections
two-IsFramed =
    frame 1 (1 ∷ []) (0 ∷ []) (3 ∷ 1 ∷ 0 ∷ []) (omega arith) (omega arith) one_byte (omega arith)
      (last_frame 3 (1 ∷ []) (0 ∷ []) (omega arith) (omega arith) one_byte)

peek_size-framed_example : peek_size (header ++ two_sections) ≡ ok (length (header ++ two_sections))
peek_size-framed_example = peek_size-framed header two_sections refl two-IsFramed

start-set_start_example :
    (start_section (set_start_section 3 hi) ≡ some 3)
    × ((A : Type 0) (of : Section → Option A)
        → ((k : ℕ) → of (Section.start k) ≡ none)
        → first of (set_start_section 3 hi).sections ≡ first of hi.sections)
start-set_start_example = start-set_start 3 hi

hi_unstarted : start_section hi ≡ none
unfolding first module_new
hi_unstarted = refl

set_start-IsValid_iff_example : IsValid (set_start_section 3 hi) ↔ AreEarly hi.sections
set_start-IsValid_iff_example = set_start-IsValid_iff 3 hi hi-IsValid hi_unstarted

start-clear_start_example :
    (start_section (clear_start_section hi) ≡ none)
    × ((A : Type 0) (of : Section → Option A)
        → ((k : ℕ) → of (Section.start k) ≡ none)
        → first of (clear_start_section hi).sections ≡ first of hi.sections)
start-clear_start_example = start-clear_start hi hi-IsValid
