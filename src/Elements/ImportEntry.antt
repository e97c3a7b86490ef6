-- ===== src/Elements/ImportEntry.antt =====
-- src/elements/import_entry.rs: limits, the types of tables, memories and globals, and imports.
pub mod RoundTrip
pub mod Total
use parity_wasm.Base.{
  ℕ, Bool, true, false, Option, none, some, ◌==◌, ◌||◌, not, if◌then◌else◌, bit_and, bit_or, [], ok,
}
use parity_wasm.Base.Int.{pos}
use parity_wasm.Elements.Error.{invalid_limits_flags, unknown_external_kind}
use parity_wasm.Elements.Codec.{Bytes, Reader, ◌>>=◌, pure, fail, Written, ◌⊹◌}
use parity_wasm.Elements.Primitives.Uint8
use parity_wasm.Elements.Primitives.VarUint7
use parity_wasm.Elements.Primitives.VarInt7
use parity_wasm.Elements.Primitives.VarUint1
use parity_wasm.Elements.Primitives.VarUint32
use parity_wasm.Elements.Primitives.Text
use parity_wasm.Elements.Types.{
  ValueType, deserialize_value_type, serialize_value_type, TableElementType, any_func,
  deserialize_table_element_type, serialize_table_element_type,
}

abbrev flag_has_max : ℕ
flag_has_max = 0x01

abbrev flag_shared : ℕ
flag_shared = 0x02

pub record GlobalType : Type 0 where
  pub content_type : ValueType
  pub is_mutable : Bool

unfoldable pub deserialize_global_type : Reader GlobalType
deserialize_global_type = do
  content_type ← deserialize_value_type
  is_mutable ← VarUint1.deserialize
  pure (record { content_type = content_type; is_mutable = is_mutable })

unfoldable pub serialize_global_type : GlobalType → Written
serialize_global_type g = serialize_value_type g.content_type ⊹ VarUint1.serialize g.is_mutable

pub record ResizableLimits : Type 0 where
  pub initial : ℕ
  pub maximum : Option ℕ
  pub shared : Bool

unfoldable pub resizable_limits_new : ℕ → Option ℕ → ResizableLimits
resizable_limits_new min max = record { initial = min; maximum = max; shared = false }

maximum_of : ℕ → Reader (Option ℕ)
maximum_of flags =
    if not (bit_and flags flag_has_max == 0)
    then (do m ← VarUint32.deserialize; pure (some m))
    else pure none

limits_of : ℕ → Reader ResizableLimits
unfolding maximum_of
limits_of flags = do
  initial ← VarUint32.deserialize
  maximum ← maximum_of flags
  pure (record {
    initial = initial;
    maximum = maximum;
    shared = not (bit_and flags flag_shared == 0);
  })

unfoldable pub deserialize_limits : Reader ResizableLimits
unfolding limits_of
deserialize_limits = do
  flags ← Uint8.deserialize
  if (flags == 0x00) || (flags == 0x01) || (flags == 0x03)
      then limits_of flags
      else fail (invalid_limits_flags flags)

max_flags : Option ℕ → ℕ
max_flags (some _) = bit_or 0 flag_has_max
max_flags none = 0

limits_flags : ResizableLimits → ℕ
unfolding max_flags
limits_flags l =
    let flags = max_flags l.maximum in if l.shared then bit_or flags flag_shared else flags

serialize_maximum : Option ℕ → Written
serialize_maximum (some m) = VarUint32.serialize m
serialize_maximum none = ok []

unfoldable pub serialize_limits : ResizableLimits → Written
unfolding limits_flags serialize_maximum
serialize_limits l =
    Uint8.serialize (limits_flags l) ⊹ VarUint32.serialize l.initial ⊹ serialize_maximum l.maximum

pub record TableType : Type 0 where
  pub elem_type : TableElementType
  pub limits : ResizableLimits

unfoldable pub table_type_new : ℕ → Option ℕ → TableType
unfolding resizable_limits_new
table_type_new min max = record { elem_type = any_func; limits = resizable_limits_new min max }

unfoldable pub deserialize_table_type : Reader TableType
deserialize_table_type = do
  elem_type ← deserialize_table_element_type
  limits ← deserialize_limits
  pure (record { elem_type = elem_type; limits = limits })

unfoldable pub serialize_table_type : TableType → Written
serialize_table_type t = serialize_table_element_type t.elem_type ⊹ serialize_limits t.limits

-- The one field has no name in the source.
pub record MemoryType : Type 0 where
  pub memory_limits : ResizableLimits

unfoldable pub memory_type_new : ℕ → Option ℕ → Bool → MemoryType
unfolding resizable_limits_new
memory_type_new min max shared = record {
  memory_limits = record (resizable_limits_new min max) { shared = shared };
}

unfoldable pub deserialize_memory_type : Reader MemoryType
deserialize_memory_type = do limits ← deserialize_limits; pure (record { memory_limits = limits })

unfoldable pub serialize_memory_type : MemoryType → Written
serialize_memory_type m = serialize_limits m.memory_limits

pub data External : Type 0 where
  function : ℕ → External
  table : TableType → External
  memory : MemoryType → External
  global : GlobalType → External

external_of : ℕ → Reader External
external_of kind =
    if kind == 0x00
    then (do index ← VarUint32.deserialize; pure (function index))
    else (if kind == 0x01
        then (do t ← deserialize_table_type; pure (table t))
        else (if kind == 0x02
            then (do m ← deserialize_memory_type; pure (memory m))
            else (if kind == 0x03
                then (do g ← deserialize_global_type; pure (global g))
                else fail (unknown_external_kind kind))))

unfoldable pub deserialize_external : Reader External
unfolding external_of
deserialize_external = do kind ← VarUint7.deserialize; external_of kind

unfoldable pub serialize_external : External → Written
serialize_external (function index) = VarUint7.serialize 0x00 ⊹ VarUint32.serialize index
serialize_external (table t) = VarInt7.serialize (pos 0x01) ⊹ serialize_table_type t
serialize_external (memory m) = VarInt7.serialize (pos 0x02) ⊹ serialize_memory_type m
serialize_external (global g) = VarInt7.serialize (pos 0x03) ⊹ serialize_global_type g

pub record ImportEntry : Type 0 where
  pub module_str : Bytes
  pub field_str : Bytes
  pub external : External

unfoldable pub deserialize_import_entry : Reader ImportEntry
deserialize_import_entry = do
  module_str ← Text.deserialize
  field_str ← Text.deserialize
  external ← deserialize_external
  pure (record { module_str = module_str; field_str = field_str; external = external })

unfoldable pub serialize_import_entry : ImportEntry → Written
serialize_import_entry e =
    Text.serialize e.module_str ⊹ Text.serialize e.field_str ⊹ serialize_external e.external
