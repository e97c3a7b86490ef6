-- ===== src/Elements/ExportEntry/RoundTrip.antt =====
-- Exports are read back from what was written.
use parity_wasm.Base.{ℕ, ◌<◌, ◌^◌, ◌≡◌, refl, true, length}
use parity_wasm.Elements.Codec.{Restores, Restores-bind, Restores-map}
use parity_wasm.Elements.Primitives.VarUint7
use parity_wasm.Elements.Primitives.VarUint32
use parity_wasm.Elements.Primitives.Text
use parity_wasm.Elements.ExportEntry.{
  Internal, function, table, memory, global, internal_of, deserialize_internal, internal_parts,
  serialize_internal, ExportEntry, deserialize_export_entry, serialize_export_entry,
}

-- What the kind of an export refers to.
abbrev pub index : Internal → ℕ
index (function arg) = arg
index (table arg) = arg
index (memory arg) = arg
index (global arg) = arg

Internal-Restores :
    (i : Internal)
    → VarUint32.IsU32 (index i)
    → Restores (serialize_internal i) deserialize_internal i
unfolding serialize_internal deserialize_internal internal_of internal_parts
Internal-Restores (function arg) h =
    Restores-bind _ (VarUint7.VarUint7-Restores 0)
      (Restores-map _ (VarUint32.serialize_u32-Restores arg h) (λ rest. refl))
Internal-Restores (table arg) h =
    Restores-bind _ (VarUint7.VarUint7-Restores 1)
      (Restores-map _ (VarUint32.serialize_u32-Restores arg h) (λ rest. refl))
Internal-Restores (memory arg) h =
    Restores-bind _ (VarUint7.VarUint7-Restores 2)
      (Restores-map _ (VarUint32.serialize_u32-Restores arg h) (λ rest. refl))
Internal-Restores (global arg) h =
    Restores-bind _ (VarUint7.VarUint7-Restores 3)
      (Restores-map _ (VarUint32.serialize_u32-Restores arg h) (λ rest. refl))

-- An export is read back, whatever follows it: its field is UTF-8 and shorter than 2 ^ 32 bytes, and
-- its index is of 32 bits.
pub ExportEntry-Restores :
    (e : ExportEntry)
    → Text.is_utf8 e.field_str ≡ true
    → length e.field_str < 2 ^ 32
    → VarUint32.IsU32 (index e.internal)
    → Restores (serialize_export_entry e) deserialize_export_entry e
unfolding serialize_export_entry deserialize_export_entry
ExportEntry-Restores e valid h k =
    Restores-bind _ (Text.String-Restores e.field_str valid h)
      (Restores-map _ (Internal-Restores e.internal k) (λ rest. refl))
