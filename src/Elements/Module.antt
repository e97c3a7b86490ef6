-- ===== src/Elements/Module.antt =====
-- src/elements/module.rs: a module, its sections by kind, and how it is read and written.
pub mod Codec
pub mod Order
pub mod RoundTrip
pub mod Total
pub mod Names
pub mod Peek
pub mod Start
use parity_wasm.Base.{
  ℕ, zero, suc, ◌+◌, ◌==◌, ltb, not, ◌&&◌, if◌then◌else◌, Bool, true, false, List, [], ◌∷◌, Option,
  none, some, ok, err, panic, out_of_fuel, length, Outcome,
}
use parity_wasm.Elements.Error.{
  Error, unexpected_eof, invalid_magic, unsupported_version, sections_out_of_order,
  duplicated_sections, inconsistent_code,
}
use parity_wasm.Elements.Codec.{Bytes, Reader, ◌>>=◌, pure, fail, read, Written, ◌⊹◌}
use parity_wasm.Elements.Primitives.ByteOrder.{LittleEndian}
use parity_wasm.Elements.Primitives.Uint32
use parity_wasm.Elements.Types.{TypeEntry}
use parity_wasm.Elements.ImportEntry as Import
use parity_wasm.Elements.ImportEntry.{ImportEntry, External, TableType, MemoryType}
use parity_wasm.Elements.ExportEntry.{ExportEntry}
use parity_wasm.Elements.Segment.{ElementSegment, DataSegment, GlobalEntry}
use parity_wasm.Elements.Func.{Func, FuncBody}
use parity_wasm.Elements.NameSection.{NameSection}
use parity_wasm.Elements.Section as Section
use parity_wasm.Elements.Section.{Section, section_id}

abbrev pub wasm_magic_number : Bytes
wasm_magic_number = 0x00 ∷ 0x61 ∷ 0x73 ∷ 0x6d ∷ []

pub record Module : Type 0 where
  pub magic : ℕ
  pub version : ℕ
  pub sections : List Section

-- `Module::new`, with what `Module::default` fills in.
unfoldable pub module_new : LittleEndian → List Section → Module
module_new le sections = record {
  magic = le.read_u32 wasm_magic_number;
  version = 1;
  sections = sections;
}

-- What each accessor looks for.
abbrev pub code_of : Section → Option (List FuncBody)
code_of (Section.code bodies) = some bodies
code_of _ = none

abbrev pub type_of : Section → Option (List TypeEntry)
type_of (Section.type entries) = some entries
type_of _ = none

abbrev pub import_of : Section → Option (List ImportEntry)
import_of (Section.import entries) = some entries
import_of _ = none

abbrev pub global_of : Section → Option (List GlobalEntry)
global_of (Section.global entries) = some entries
global_of _ = none

abbrev pub export_of : Section → Option (List ExportEntry)
export_of (Section.export entries) = some entries
export_of _ = none

abbrev pub table_of : Section → Option (List TableType)
table_of (Section.table entries) = some entries
table_of _ = none

abbrev pub data_of : Section → Option (List DataSegment)
data_of (Section.data_segments entries) = some entries
data_of _ = none

abbrev pub element_of : Section → Option (List ElementSegment)
element_of (Section.element entries) = some entries
element_of _ = none

abbrev pub memory_of : Section → Option (List MemoryType)
memory_of (Section.memory entries) = some entries
memory_of _ = none

abbrev pub function_of : Section → Option (List Func)
function_of (Section.function entries) = some entries
function_of _ = none

abbrev pub start_of : Section → Option ℕ
start_of (Section.start index) = some index
start_of _ = none

abbrev pub name_of : Section → Option NameSection
name_of (Section.name n) = some n
name_of _ = none

-- `for section in self.sections() { if let … { return Some(…); } } None`
abbrev or_else : {A : Type 0} → Option A → Option A → Option A
or_else (some a) other = some a
or_else none other = other

unfoldable pub first : {A : Type 0} → (Section → Option A) → List Section → Option A
first of [] = none
first of (s ∷ ss) = or_else (of s) (first of ss)

abbrev pub code_section : Module → Option (List FuncBody)
code_section m = first code_of m.sections

abbrev pub type_section : Module → Option (List TypeEntry)
type_section m = first type_of m.sections

abbrev pub import_section : Module → Option (List ImportEntry)
import_section m = first import_of m.sections

abbrev pub global_section : Module → Option (List GlobalEntry)
global_section m = first global_of m.sections

abbrev pub export_section : Module → Option (List ExportEntry)
export_section m = first export_of m.sections

abbrev pub table_section : Module → Option (List TableType)
table_section m = first table_of m.sections

abbrev pub data_section : Module → Option (List DataSegment)
data_section m = first data_of m.sections

abbrev pub elements_section : Module → Option (List ElementSegment)
elements_section m = first element_of m.sections

abbrev pub memory_section : Module → Option (List MemoryType)
memory_section m = first memory_of m.sections

abbrev pub function_section : Module → Option (List Func)
function_section m = first function_of m.sections

abbrev pub start_section : Module → Option ℕ
start_section m = first start_of m.sections

abbrev pub names_section : Module → Option NameSection
names_section m = first name_of m.sections

abbrev pub is_start : Section → Bool
is_start (Section.start _) = true
is_start _ = false

-- The first start section is replaced, or one is added at the end.
unfoldable pub with_start : ℕ → List Section → List Section
with_start new_start [] = Section.start new_start ∷ []
with_start new_start (s ∷ ss) =
    let rest = with_start new_start ss in
    if is_start s then Section.start new_start ∷ ss else s ∷ rest

unfoldable pub set_start_section : ℕ → Module → Module
unfolding with_start
set_start_section new_start m = record m { sections = with_start new_start m.sections }

-- The first start section is removed.
unfoldable pub without_start : List Section → List Section
without_start [] = []
without_start (s ∷ ss) = let rest = without_start ss in if is_start s then ss else s ∷ rest

unfoldable pub clear_start_section : Module → Module
unfolding without_start
clear_start_section m = record m { sections = without_start m.sections }

-- `.map(|x| x.len()).unwrap_or(0)`
abbrev pub count_of : {A : Type 0} → Option (List A) → ℕ
count_of (some xs) = length xs
count_of none = 0

pub data ImportCountType : Type 0 where
  function_type global_type table_type memory_type : ImportCountType

abbrev is_counted : ImportCountType → External → Bool
is_counted function_type (Import.function _) = true
is_counted global_type (Import.global _) = true
is_counted table_type (Import.table _) = true
is_counted memory_type (Import.memory _) = true
is_counted _ _ = false

unfoldable pub count_imports : ImportCountType → List ImportEntry → ℕ
count_imports count_type [] = 0
count_imports count_type (e ∷ es) =
    (if is_counted count_type e.external then 1 else 0) + count_imports count_type es

unfoldable pub import_count : ImportCountType → Module → ℕ
unfolding count_imports first
import_count count_type m = elim (import_section m) [
  | some entries ↦ count_imports count_type entries
  | none ↦ 0
]

unfoldable pub functions_space : Module → ℕ
unfolding import_count
functions_space m = import_count function_type m + count_of (function_section m)

unfoldable pub globals_space : Module → ℕ
unfolding import_count
globals_space m = import_count global_type m + count_of (global_section m)

unfoldable pub table_space : Module → ℕ
unfolding import_count
table_space m = import_count table_type m + count_of (table_section m)

unfoldable pub memory_space : Module → ℕ
unfolding import_count
memory_space m = import_count memory_type m + count_of (memory_section m)
