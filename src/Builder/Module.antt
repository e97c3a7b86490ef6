-- ===== src/Builder/Module.antt =====
-- src/builder/module.rs: `ModuleBuilder` over its scaffold, and the definitions of
-- src/builder/code.rs that it takes.
pub mod Valid
pub mod Push
pub mod Apart
use parity_wasm.Base.{
  ℕ, suc, ◌+◌, ◌-◌, ◌%◌, ◌^◌, ◌==◌, ◌&&◌, ltb, if◌then◌else◌, Bool, true, false, List, [], ◌∷◌,
  ◌++◌, Option, none, some, ok, panic, length, Outcome, ◌>>=◌,
}
use parity_wasm.Elements.Error.{Error}
use parity_wasm.Elements.Primitives.ByteOrder.{LittleEndian}
use parity_wasm.Elements.Types.{
  TypeEntry, function, FunctionType, ValueType, i32, i64, f32, f64, v128,
}
use parity_wasm.Elements.ImportEntry.{ImportEntry, TableType, MemoryType}
use parity_wasm.Elements.ExportEntry.{ExportEntry}
use parity_wasm.Elements.Segment.{ElementSegment, DataSegment, GlobalEntry}
use parity_wasm.Elements.Func.{Func, FuncBody}
use parity_wasm.Elements.Section as Section
use parity_wasm.Elements.Section.{Section}
use parity_wasm.Elements.Module.{Module, module_new}

pub record ModuleScaffold : Type 0 where
  pub types : List TypeEntry
  pub import : List ImportEntry
  pub functions : List Func
  pub table : List TableType
  pub memory : List MemoryType
  pub global : List GlobalEntry
  pub export : List ExportEntry
  pub start : Option ℕ
  pub element : List ElementSegment
  pub code : List FuncBody
  pub data_segments : List DataSegment
  pub other : List Section

abbrev pub scaffold_default : ModuleScaffold
scaffold_default = record {
  types = [];
  import = [];
  functions = [];
  table = [];
  memory = [];
  global = [];
  export = [];
  start = none;
  element = [];
  code = [];
  data_segments = [];
  other = [];
}

-- One arm of the `match` on a section that was popped. A list that was not found is empty.
unfoldable pub absorb : Section → ModuleScaffold → ModuleScaffold
absorb (Section.type sect) s = record s { types = sect }
absorb (Section.import sect) s = record s { import = sect }
absorb (Section.function sect) s = record s { functions = sect }
absorb (Section.table sect) s = record s { table = sect }
absorb (Section.memory sect) s = record s { memory = sect }
absorb (Section.global sect) s = record s { global = sect }
absorb (Section.export sect) s = record s { export = sect }
absorb (Section.start index) s = record s { start = some index }
absorb (Section.element sect) s = record s { element = sect }
absorb (Section.code sect) s = record s { code = sect }
absorb (Section.data_segments sect) s = record s { data_segments = sect }
absorb _ s = s

-- The last section is popped first. None are left for `other`.
unfoldable pub scaffold_of : List Section → ModuleScaffold
unfolding absorb
scaffold_of [] = scaffold_default
scaffold_of (section ∷ sections) = absorb section (scaffold_of sections)

-- A section that is a list is pushed if it is not empty.
unfoldable pub push_list : {A : Type 0} → (List A → Section) → List A → List Section → List Section
push_list section [] rest = rest
push_list section (x ∷ xs) rest = section (x ∷ xs) ∷ rest

unfoldable pub push_start : Option ℕ → List Section → List Section
push_start (some index) rest = Section.start index ∷ rest
push_start none rest = rest

-- The sections of a scaffold in their order, and the others behind them.
unfoldable pub scaffold_sections : ModuleScaffold → List Section
unfolding push_list push_start
scaffold_sections m = push_list Section.type m.types (
    push_list Section.import m.import (
      push_list Section.function m.functions (
        push_list Section.table m.table (
          push_list Section.memory m.memory (
            push_list Section.global m.global (
              push_list Section.export m.export (
                push_start m.start (
                  push_list Section.element m.element (
                    push_list Section.code m.code
                      (push_list Section.data_segments m.data_segments m.other))))))))))

unfoldable pub build : LittleEndian → ModuleScaffold → Module
unfolding scaffold_sections module_new
build le m = module_new le (scaffold_sections m)

unfoldable pub with_module : Module → ModuleScaffold
unfolding scaffold_of
with_module m = scaffold_of m.sections

pub data Signature : Type 0 where
  type_reference : ℕ → Signature
  inline : FunctionType → Signature

pub record FunctionDefinition : Type 0 where
  pub is_main : Bool
  pub signature : Signature
  pub body : FuncBody

pub record CodeLocation : Type 0 where
  pub signature_index : ℕ
  pub body_index : ℕ

-- The derived equalities.
abbrev pub same_value_type : ValueType → ValueType → Bool
same_value_type i32 i32 = true
same_value_type i64 i64 = true
same_value_type f32 f32 = true
same_value_type f64 f64 = true
same_value_type v128 v128 = true
same_value_type _ _ = false

abbrev pub same_params : List ValueType → List ValueType → Bool
same_params [] [] = true
same_params (a ∷ as') (b ∷ bs) = same_value_type a b && same_params as' bs
same_params _ _ = false

abbrev pub same_return : Option ValueType → Option ValueType → Bool
same_return none none = true
same_return (some a) (some b) = same_value_type a b
same_return _ _ = false

abbrev pub same_function_type : FunctionType → FunctionType → Bool
same_function_type f g =
    f.form == g.form && same_params f.params g.params && same_return f.return_type g.return_type

-- The index of the first type that is the given one, counted from `i`.
unfoldable pub find_type : FunctionType → ℕ → List TypeEntry → Option ℕ
find_type func_type i [] = none
find_type func_type i (function existing ∷ types) =
    let rest = find_type func_type (i + 1) types in
    if same_function_type existing func_type then some i else rest

-- `len() as u32 - 1`, of which the subtraction panics at 0 (a release build wraps there).
unfoldable pub last_index : ℕ → Outcome Error ℕ
last_index len = if len % 2 ^ 32 == 0 then panic else ok (len % 2 ^ 32 - 1)

unfoldable pub resolve_type_ref : Signature → ModuleScaffold → Outcome Error (ℕ × ModuleScaffold)
unfolding find_type last_index
resolve_type_ref (type_reference type_ref) m = ok (type_ref, m)
resolve_type_ref (inline func_type) m = elim (find_type func_type 0 m.types) [
  | some existing_entry ↦ ok (existing_entry % 2 ^ 32, m)
  | none ↦
      let types = m.types ++ function func_type ∷ [] in
      (do index ← last_index (length types); ok (index, record m { types = types }))
]

abbrev pub main_or : Bool → ℕ → Option ℕ → Option ℕ
main_or is_main body_index start = if is_main then some body_index else start

unfoldable pub push_function :
    FunctionDefinition → ModuleScaffold → Outcome Error (CodeLocation × ModuleScaffold)
unfolding resolve_type_ref
push_function func m = do
  (type_ref, m') ← resolve_type_ref func.signature m
  let functions : List Func = m'.functions ++ record { type_ref = type_ref } ∷ []
  signature_index ← last_index (length functions)
  let bodies : List FuncBody = m'.code ++ func.body ∷ []
  body_index ← last_index (length bodies)
  ok (
    record { signature_index = signature_index; body_index = body_index },
    record m' {
      functions = functions;
      code = bodies;
      start = main_or func.is_main body_index m'.start;
    },
  )

unfoldable pub push_import : ImportEntry → ModuleScaffold → Outcome Error (ℕ × ModuleScaffold)
push_import entry m =
    let entries = m.import ++ entry ∷ [] in
    (do index ← last_index (length entries); ok (index, record m { import = entries }))

unfoldable pub push_export : ExportEntry → ModuleScaffold → Outcome Error (ℕ × ModuleScaffold)
push_export entry m =
    let entries = m.export ++ entry ∷ [] in
    (do index ← last_index (length entries); ok (index, record m { export = entries }))

unfoldable pub with_section : Section → ModuleScaffold → ModuleScaffold
with_section section m = record m { other = m.other ++ section ∷ [] }

unfoldable pub with_global : GlobalEntry → ModuleScaffold → ModuleScaffold
with_global entry m = record m { global = m.global ++ entry ∷ [] }

unfoldable pub with_table : TableType → ModuleScaffold → ModuleScaffold
with_table entry m = record m { table = m.table ++ entry ∷ [] }

unfoldable pub with_data_segment : DataSegment → ModuleScaffold → ModuleScaffold
with_data_segment segment m = record m { data_segments = m.data_segments ++ segment ∷ [] }
