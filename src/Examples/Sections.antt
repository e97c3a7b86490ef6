-- ===== src/Examples/Sections.antt =====
-- Sections and whole modules.
use parity_wasm.Base.{◌<◌, ◌^◌, ◌≡◌, refl, List, [], ◌∷◌, length, arith, lt_wf, ok}
use parity_wasm.Elements.Codec.{Bytes, Written, Restores, read}
use parity_wasm.Examples.Words.{le, number}
use parity_wasm.Elements.Ops.{end_op}
use native.Mathlib.Decide.{dec_lt}
use parity_wasm.Elements.Primitives.CountedWriter.{counted, done}
use parity_wasm.Elements.Ops.Blocks as Blocks
use parity_wasm.Elements.Ops.Write as Write
use parity_wasm.Elements.Ops.Read as Read
use parity_wasm.Elements.Ops.Blocks.{next_count, instructions_loop, deserialize_instructions}
use parity_wasm.Elements.Buffered.{buffered_read}
use parity_wasm.Elements.Primitives.VarUint32
use parity_wasm.Elements.Primitives.VarUint7
use parity_wasm.Elements.Primitives.Uint8
use parity_wasm.Elements.Primitives.Uint32
use parity_wasm.Elements.Primitives.CountedList
use parity_wasm.Elements.Primitives.Unsigned.{read_unsigned, write_unsigned}
use parity_wasm.Elements.Func.{
  Func, FuncBody, deserialize_func, deserialize_func_body, serialize_func, serialize_func_body,
  serialize_body, add_counts,
}
use parity_wasm.Elements.Section.SectionReader.{
  read_entries, in_section, section_reader_new, IsShort,
}
use parity_wasm.Elements.Section as Section
use parity_wasm.Elements.Section.{Section}
use parity_wasm.Elements.Module.{Module, first}
use parity_wasm.Elements.Module.Codec as Module
use parity_wasm.Elements.Module.RoundTrip.{module_round_trip}
use parity_wasm.Elements.Section.RoundTrip.{IsReadable, Section-Restores}
use parity_wasm.Elements.Func.RoundTrip.{IsBody}
use parity_wasm.Elements.Ops.Blocks.RoundTrip.{nothing}
use parity_wasm.Elements.Module.Order.{IsValid, deserialize-IsValid, none_left, ascending}

-- A module of one function that does nothing.
abbrev wasm : Bytes
wasm = 0x00 ∷ 0x61 ∷ 0x73 ∷ 0x6d ∷ 1 ∷ 0 ∷ 0 ∷ 0 ∷ 3 ∷ 2 ∷ 1 ∷ 0 ∷ 10 ∷ 4 ∷ 1 ∷ 2 ∷ 0 ∷ 0x0b ∷ []

abbrev nothing_body : FuncBody
nothing_body = record { locals = []; instructions = end_op ∷ [] }

abbrev small : Module
small = record {
  magic = number (0x00 ∷ 0x61 ∷ 0x73 ∷ 0x6d ∷ []);
  version = 1;
  sections =
      Section.function (record { type_ref = 0 } ∷ []) ∷ Section.code (nothing_body ∷ []) ∷ [];
}

parsed : Module.deserialize le wasm ≡ ok (small, [])
unfolding Module.deserialize Read.deserialize Read.instruction_of next_count instructions_loop read
    buffered_read number CountedList.deserialize CountedList.deserialize_items VarUint32.deserialize
    VarUint7.deserialize Uint8.deserialize Uint32.deserialize read_unsigned Section.deserialize
    read_entries in_section section_reader_new deserialize_func Section.section_id
    deserialize_func_body add_counts deserialize_instructions
parsed = refl

pub written-IsShort : (w : Written) (ks : Bytes) → w ≡ ok ks → length ks < 2 ^ 32 → IsShort w
written-IsShort w ks e h bs f = let same : ks ≡ bs = cc (e, f) in rw (← same) h

abbrev functions : List Func
functions = record { type_ref = 0 } ∷ []

functions_written : CountedList.serialize serialize_func 1 functions ≡ ok (1 ∷ 0 ∷ [])
unfolding CountedList.serialize CountedList.serialize_items VarUint32.serialize serialize_func
    serialize_func_body write_unsigned VarUint32.serialize_usize Blocks.serialize Write.serialize
    lt_wf dec_lt counted done Uint8.serialize
functions_written = refl

functions-IsReadable : IsReadable le (Section.function functions)
functions-IsReadable =
    ((omega arith, tt), omega arith, written-IsShort _ _ functions_written (omega arith))

body_written : serialize_body le nothing_body ≡ ok (0 ∷ 0x0b ∷ [])
unfolding CountedList.serialize CountedList.serialize_items VarUint32.serialize serialize_func
    serialize_func_body write_unsigned VarUint32.serialize_usize Blocks.serialize Write.serialize
    lt_wf dec_lt counted done Uint8.serialize
body_written = refl

bodies_written :
    CountedList.serialize (serialize_func_body le) 1 (nothing_body ∷ [])
    ≡ ok (1 ∷ 2 ∷ 0 ∷ 0x0b ∷ [])
unfolding CountedList.serialize CountedList.serialize_items VarUint32.serialize serialize_func
    serialize_func_body write_unsigned VarUint32.serialize_usize Blocks.serialize Write.serialize
    lt_wf dec_lt counted done Uint8.serialize
bodies_written = refl

nothing-IsBody : IsBody nothing_body
nothing-IsBody = record {
  few_locals = omega arith;
  few_counted = omega arith;
  sequence = [];
  ended = refl;
  is_sequence = nothing;
  readable = (tt, tt);
  few_instructions = omega arith;
}

bodies-IsReadable : IsReadable le (Section.code (nothing_body ∷ []))
bodies-IsReadable = (
  ((nothing-IsBody, written-IsShort _ _ body_written (omega arith)), tt),
  omega arith,
  written-IsShort _ _ bodies_written (omega arith),
)

Section-Restores_example :
    Restores
      (Section.serialize le (Section.code (nothing_body ∷ [])))
      (Section.deserialize le)
      (Section.code (nothing_body ∷ []))
Section-Restores_example = Section-Restores le (Section.code (nothing_body ∷ [])) bodies-IsReadable

small-IsValid : IsValid small
unfolding first Section.section_id
small-IsValid = record {
  first_version = refl;
  in_order = ascending (omega arith) (ascending (omega arith) none_left);
  consistent = refl;
}

module_round_trip_example :
    (bs : Bytes) × (Module.serialize le small ≡ ok bs) × (Module.deserialize le bs ≡ ok (small, []))
module_round_trip_example =
    module_round_trip le small refl small-IsValid (functions-IsReadable, (bodies-IsReadable, tt))

deserialize-IsValid_example : IsValid small
deserialize-IsValid_example = deserialize-IsValid le wasm parsed
