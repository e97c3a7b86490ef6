-- ===== src/Examples/Built.antt =====
-- Modules that are put together.
use parity_wasm.Base.{ℕ, ◌≡◌, refl, true, [], ◌∷◌, ◌++◌, none, ok, length, arith}
use parity_wasm.Examples.Words.{le}
use parity_wasm.Elements.Types.{i32}
use parity_wasm.Elements.Ops.{end_op}
use parity_wasm.Elements.Func.{FuncBody}
use parity_wasm.Elements.Section as Section
use parity_wasm.Elements.Section.{section_id}
use parity_wasm.Elements.Module.Order.{IsValid}
use parity_wasm.Builder.Module.{
  ModuleScaffold, scaffold_default, build, with_module, push_function, FunctionDefinition,
  CodeLocation, inline,
}
use parity_wasm.Builder.Module.Valid.{AreOther, build-IsValid}
use parity_wasm.Builder.Module.Push.{Denotes, push_function_lem}
use parity_wasm.Builder.Module.Apart.{with_module-build}

abbrev idle : FuncBody
idle = record { locals = []; instructions = end_op ∷ [] }

-- One function, and a custom section.
abbrev one_function : ModuleScaffold
one_function = record scaffold_default {
  functions = record { type_ref = 0 } ∷ [];
  code = idle ∷ [];
  other = Section.custom (record { name = 0x78 ∷ []; payload = [] }) ∷ [];
}

custom_only : AreOther one_function.other
unfolding section_id
custom_only = (refl, tt)

build-IsValid_example : IsValid (build le one_function)
build-IsValid_example = build-IsValid one_function custom_only le refl

with_module-build_example : with_module (build le one_function) ≡ record one_function { other = [] }
with_module-build_example = with_module-build le one_function custom_only

abbrev main_function : FunctionDefinition
main_function = record {
  is_main = true;
  signature = inline (record { form = 0x60; params = i32 ∷ []; return_type = none });
  body = idle;
}

push_function_lem_example :
    (t : ℕ) × (at : CodeLocation) × (m' : ModuleScaffold) × (push_function main_function
        one_function
      ≡ ok (at, m'))
    × (m'.functions ≡ one_function.functions ++ record { type_ref = t } ∷ [])
    × (at.signature_index ≡ length one_function.functions)
    × (m'.code ≡ one_function.code ++ main_function.body ∷ [])
    × (at.body_index ≡ length one_function.code)
    × Denotes main_function.signature t m'.types
push_function_lem_example =
    push_function_lem main_function one_function refl (omega arith) (omega arith)
