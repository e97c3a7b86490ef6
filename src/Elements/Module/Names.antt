-- ===== src/Elements/Module/Names.antt =====
-- src/elements/name_section.rs, the readers, and src/elements/module.rs: `parse_names` and
-- `parse_reloc`, which read custom sections again as names and relocations.
pub mod Each
pub mod Total
pub mod Results
use parity_wasm.Base.{
  ℕ, suc, ◌+◌, max, ◌==◌, ◌&&◌, not, if◌then◌else◌, Bool, true, false, List, [], ◌∷◌, ◌++◌, map,
  Option, none, some, ok, err, panic, out_of_fuel, length, Outcome,
}
use parity_wasm.Io.{invalid_data}
use parity_wasm.Elements.Error.{Error, other, from_io}
use parity_wasm.Elements.Codec.{Bytes, Reader, ◌>>=◌, pure, fail, read}
use parity_wasm.Elements.IndexMap as IndexMap
use parity_wasm.Elements.IndexMap.{IndexMap}
use parity_wasm.Elements.Primitives.VarUint7
use parity_wasm.Elements.Primitives.VarUint32
use parity_wasm.Elements.Primitives.Text
use parity_wasm.Elements.Types.{TypeEntry, function}
use parity_wasm.Elements.Func.{Func, FuncBody}
use parity_wasm.Elements.NameSection.{
  NameMap, NameSection, module_name, function_names, local_names, unparsed,
}
use parity_wasm.Elements.RelocSection.{RelocSection, deserialize_reloc_section}
use parity_wasm.Elements.Section as Section
use parity_wasm.Elements.Section.{Section, CustomSection}
use parity_wasm.Elements.Module.{
  Module, first, functions_space, function_section, type_section, code_section,
}

unfoldable pub deserialize_function_names : Module → Reader NameMap
deserialize_function_names m = IndexMap.deserialize (functions_space m) Text.deserialize

-- `.max().unwrap_or(0)`
abbrev largest : List ℕ → ℕ
largest [] = 0
largest (n ∷ ns) = max n (largest ns)

abbrev params_of : TypeEntry → ℕ
params_of (function f) = length f.params

abbrev max_signature_args : Option (List TypeEntry) → ℕ
max_signature_args (some types) = largest (map params_of types)
max_signature_args none = 0

abbrev max_locals : Option (List FuncBody) → ℕ
max_locals (some bodies) = largest (map (λ f. length f.locals) bodies)
max_locals none = 0

-- The reader, once `max_space` and the functions are known.
unfoldable pub local_names_of : ℕ → Option (List Func) → Reader (IndexMap NameMap)
local_names_of max_space none =
    fail (other "cannot deserialize local names without a function section")
local_names_of max_space (some funcs) =
    IndexMap.deserialize_with (length funcs) (λ _. IndexMap.deserialize max_space Text.deserialize)

unfoldable pub deserialize_local_names : Module → Reader (IndexMap NameMap)
unfolding local_names_of first
deserialize_local_names m =
    let max_space = max_signature_args (type_section m) + max_locals (code_section m) in
    local_names_of max_space (function_section m)

-- The branches of the `match` on the type.
unfoldable pub names_of : Module → ℕ → ℕ → Reader NameSection
unfolding deserialize_function_names deserialize_local_names
names_of m name_type name_payload_len =
    if name_type == 0
    then (do s ← Text.deserialize; pure (module_name s))
    else if name_type == 1
    then (do names ← deserialize_function_names m; pure (function_names names))
    else if name_type == 2
    then (do names ← deserialize_local_names m; pure (local_names names))
    else (do name_payload ← read name_payload_len; pure (unparsed name_type name_payload))

unfoldable pub deserialize_name_section : Module → Reader NameSection
unfolding names_of
deserialize_name_section m = do
  name_type ← VarUint7.deserialize
  name_payload_len ← VarUint32.deserialize
  names_of m name_type name_payload_len

abbrev pub starts_with : Bytes → Bytes → Bool
starts_with [] s = true
starts_with (p ∷ ps) [] = false
starts_with (p ∷ ps) (b ∷ bs) = p == b && starts_with ps bs

-- "name" and "reloc."
abbrev pub name_header : Bytes
name_header = 0x6e ∷ 0x61 ∷ 0x6d ∷ 0x65 ∷ []

abbrev pub reloc_header : Bytes
reloc_header = 0x72 ∷ 0x65 ∷ 0x6c ∷ 0x6f ∷ 0x63 ∷ 0x2e ∷ []

abbrev pub equal_text : Bytes → Bytes → Bool
equal_text [] [] = true
equal_text (a ∷ as') (b ∷ bs) = a == b && equal_text as' bs
equal_text _ _ = false

-- The section that stands in the place of one, if it is another one.
abbrev pub Change : Type 0
Change = Outcome Error (Option Section)

named : Outcome Error (NameSection × Bytes) → Change
named (ok (n, _)) = ok (some (Section.name n))
named (err e) = err e
named panic = panic
named out_of_fuel = out_of_fuel

unfoldable pub parse_name : Module → Section → Change
unfolding named
parse_name m (Section.custom c) =
    if equal_text c.name name_header then named (deserialize_name_section m c.payload) else ok none
parse_name m _ = ok none

-- The cursor must stand at the end of the payload.
unfoldable pub relocated : Outcome Error (RelocSection × Bytes) → Change
relocated (ok (r, [])) = ok (some (Section.reloc r))
relocated (ok (r, _ ∷ _)) = err (from_io invalid_data)
relocated (err e) = err e
relocated panic = panic
relocated out_of_fuel = out_of_fuel

unfoldable pub parse_relocation : Section → Change
unfolding relocated
parse_relocation (Section.custom c) =
    if starts_with reloc_header c.name
    then relocated (deserialize_reloc_section c.name c.payload)
    else ok none
parse_relocation _ = ok none

-- `parse_errors` and the sections.
abbrev pub Progress : Type 0
Progress = List (ℕ × Error) × List Section

abbrev keep : Section → Outcome Error Progress → Outcome Error Progress
keep s (ok (errors, sections)) = ok (errors, s ∷ sections)
keep s (err e) = err e
keep s panic = panic
keep s out_of_fuel = out_of_fuel

abbrev note : ℕ → Error → Outcome Error Progress → Outcome Error Progress
note i e (ok (errors, sections)) = ok ((i, e) ∷ errors, sections)
note i e (err e') = err e'
note i e panic = panic
note i e out_of_fuel = out_of_fuel

-- A round at the index `i`, on what became of the section, `more` being the rounds that follow with
-- the section that stands at `i` after it.
abbrev round : ℕ → Section → (Section → Outcome Error Progress) → Change → Outcome Error Progress
round i s more (ok none) = keep s (more s)
round i s more (ok (some s')) = keep s' (more s')
round i s more (err e) = note i e (keep s (more s))
round i s more panic = panic
round i s more out_of_fuel = out_of_fuel

-- The loops: `done` are the sections before `i`, as they are by now.
unfoldable pub parse_loop :
    (List Section → Section → Change) → ℕ → List Section → List Section → Outcome Error Progress
parse_loop parse i done [] = ok ([], [])
parse_loop parse i done (s ∷ ss) =
    round i s (λ s'. parse_loop parse (i + 1) (done ++ s' ∷ []) ss) (parse (done ++ s ∷ ss) s)

-- `Ok(self)` or `Err((parse_errors, self))`.
pub data Parsed : Type 0 where
  all_parsed : Module → Parsed
  some_failed : List (ℕ × Error) → Module → Parsed

unfoldable pub finish : Module → Outcome Error Progress → Outcome Error Parsed
finish m (ok ([], sections)) = ok (all_parsed (record m { sections = sections }))
finish m (ok (e ∷ errors, sections)) =
    ok (some_failed (e ∷ errors) (record m { sections = sections }))
finish m (err e) = err e
finish m panic = panic
finish m out_of_fuel = out_of_fuel

unfoldable pub parse_names : Module → Outcome Error Parsed
unfolding parse_loop finish
parse_names m =
    finish m
      (parse_loop (λ sections. parse_name (record m { sections = sections })) 0 [] m.sections)

unfoldable pub parse_reloc : Module → Outcome Error Parsed
unfolding parse_loop finish
parse_reloc m = finish m (parse_loop (λ _. parse_relocation) 0 [] m.sections)
