-- ===== src/Elements/NameSection.antt =====
-- src/elements/name_section.rs: names of a module, its functions and their locals, as they are written.
-- They are read with the module at hand (Elements/Module/Names).
use parity_wasm.Base.{ℕ, ok, err, panic, out_of_fuel, length}
use parity_wasm.Elements.Codec.{Bytes, Written, ◌⊹◌}
use parity_wasm.Elements.IndexMap.{IndexMap}
use parity_wasm.Elements.IndexMap as IndexMap
use parity_wasm.Elements.Primitives.VarUint7
use parity_wasm.Elements.Primitives.VarUint32
use parity_wasm.Elements.Primitives.Text

abbrev pub NameMap : Type 0
NameMap = IndexMap Bytes

-- `Module` and `Local`, which hold a section each, are named after these.
pub data NameSection : Type 0 where
  module_name : Bytes → NameSection
  function_names : NameMap → NameSection
  local_names : IndexMap NameMap → NameSection
  unparsed : ℕ → Bytes → NameSection

abbrev pub name_type : NameSection → ℕ
name_type (module_name _) = 0
name_type (function_names _) = 1
name_type (local_names _) = 2
name_type (unparsed t _) = t

unfoldable pub serialize_names : NameMap → Written
serialize_names = IndexMap.serialize Text.serialize

unfoldable pub name_payload : NameSection → Written
unfolding serialize_names
name_payload (module_name name) = Text.serialize name
name_payload (function_names names) = serialize_names names
name_payload (local_names locals) = IndexMap.serialize serialize_names locals
name_payload (unparsed _ payload) = ok payload

-- The type and the length of the payload go before it.
abbrev framed : ℕ → Written → Written
framed t (ok payload) =
    VarUint7.serialize t ⊹ VarUint32.serialize_usize (length payload) ⊹ ok payload
framed t (err e) = err e
framed t panic = panic
framed t out_of_fuel = out_of_fuel

unfoldable pub serialize_name_section : NameSection → Written
unfolding name_payload
serialize_name_section n = framed (name_type n) (name_payload n)
