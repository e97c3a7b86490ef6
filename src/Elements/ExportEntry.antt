-- ===== src/Elements/ExportEntry.antt =====
-- src/elements/export_entry.rs: exports.
pub mod RoundTrip
pub mod Total
use parity_wasm.Base.{ℕ, ◌==◌, if◌then◌else◌}
use parity_wasm.Elements.Error.{unknown_internal_kind}
use parity_wasm.Elements.Codec.{Bytes, Reader, ◌>>=◌, pure, fail, Written, ◌⊹◌}
use parity_wasm.Elements.Primitives.VarUint7
use parity_wasm.Elements.Primitives.VarUint32
use parity_wasm.Elements.Primitives.Text

pub data Internal : Type 0 where
  function table memory global : ℕ → Internal

internal_of : ℕ → Reader Internal
internal_of kind =
    if kind == 0x00
    then (do index ← VarUint32.deserialize; pure (function index))
    else (if kind == 0x01
        then (do index ← VarUint32.deserialize; pure (table index))
        else (if kind == 0x02
            then (do index ← VarUint32.deserialize; pure (memory index))
            else (if kind == 0x03
                then (do index ← VarUint32.deserialize; pure (global index))
                else fail (unknown_internal_kind kind))))

unfoldable pub deserialize_internal : Reader Internal
unfolding internal_of
deserialize_internal = do kind ← VarUint7.deserialize; internal_of kind

-- The byte and the argument that are written.
internal_parts : Internal → ℕ × ℕ
internal_parts (function arg) = (0x00, arg)
internal_parts (table arg) = (0x01, arg)
internal_parts (memory arg) = (0x02, arg)
internal_parts (global arg) = (0x03, arg)

unfoldable pub serialize_internal : Internal → Written
unfolding internal_parts
serialize_internal i =
    let (bt, arg) = internal_parts i in VarUint7.serialize bt ⊹ VarUint32.serialize arg

pub record ExportEntry : Type 0 where
  pub field_str : Bytes
  pub internal : Internal

unfoldable pub deserialize_export_entry : Reader ExportEntry
deserialize_export_entry = do
  field_str ← Text.deserialize
  internal ← deserialize_internal
  pure (record { field_str = field_str; internal = internal })

unfoldable pub serialize_export_entry : ExportEntry → Written
serialize_export_entry e = Text.serialize e.field_str ⊹ serialize_internal e.internal
