-- ===== src/Elements/ImportEntry/RoundTrip.antt =====
-- Imports are read back from what was written, but for shared limits that have no maximum.
use parity_wasm.Base.{
  ℕ, ◌<◌, ◌^◌, ◌≡◌, ◌≢◌, ◌↔◌, refl, Bool, true, false, Option, none, some, [], ◌∷◌, ◌++◌, ok, arith,
  sym, ◌∙◌, subst, length,
}
use parity_wasm.Base.Int.{pos}
use parity_wasm.Elements.Codec.{Restores, Restores-bind, Restores-map, Bytes}
use parity_wasm.Elements.Primitives.Uint8
use parity_wasm.Elements.Primitives.VarUint7
use parity_wasm.Elements.Primitives.VarInt7
use parity_wasm.Elements.Primitives.VarUint1
use parity_wasm.Elements.Primitives.VarUint32
use parity_wasm.Elements.Primitives.Text
use parity_wasm.Elements.Types.RoundTrip.{ValueType-Restores, TableElementType-Restores}
use parity_wasm.Elements.ImportEntry.{
  GlobalType, deserialize_global_type, serialize_global_type, ResizableLimits, maximum_of,
  limits_of, deserialize_limits, max_flags, limits_flags, serialize_maximum, serialize_limits,
  TableType, deserialize_table_type, serialize_table_type, MemoryType, deserialize_memory_type,
  serialize_memory_type, External, function, table, memory, global, external_of,
  deserialize_external, serialize_external, ImportEntry, deserialize_import_entry,
  serialize_import_entry,
}

-- The numbers of limits are of 32 bits.
abbrev pub IsNarrow : ResizableLimits → Type 0
IsNarrow l = VarUint32.IsU32 l.initial × ((m : ℕ) → l.maximum ≡ some m → VarUint32.IsU32 m)

abbrev pub IsReadable : ResizableLimits → Type 0
IsReadable l = l.shared ≡ true → l.maximum ≢ none

limits : ℕ → Option ℕ → Bool → ResizableLimits
limits i max s = record { initial = i; maximum = max; shared = s }

module _ (i : ℕ) (h : VarUint32.IsU32 i) where
  unshared :
      Restores (serialize_limits (limits i none false)) deserialize_limits (limits i none false)
  unfolding limits serialize_limits deserialize_limits limits_of maximum_of max_flags limits_flags
      serialize_maximum
  unshared = Restores-bind _ (Uint8.Uint8-Restores 0) (
      Restores-bind _ (VarUint32.serialize_u32-Restores i h)
        (record { bytes = []; written = refl; reads = λ rest. refl }))

  -- The flags of shared limits without a maximum are 0x02, which are refused.
  shared_refused :
      Restores (serialize_limits (limits i none true)) deserialize_limits (limits i none true) → ⊥
  unfolding limits serialize_limits deserialize_limits limits_of maximum_of max_flags limits_flags
      serialize_maximum Uint8.serialize Uint8.deserialize
  shared_refused r =
      let (bs, e, _, _, _, _, _) = VarUint32.serialize_u32_shortest i h in
      refused bs r.bytes e r.written (r.reads [])
    where
      refused :
          (bs ks : Bytes)
          → VarUint32.serialize i ≡ ok bs
          → serialize_limits (limits i none true) ≡ ok ks
          → deserialize_limits (ks ++ []) ≡ ok (limits i none true, [])
          → ⊥
      refused bs ks e w r =
          let same : ok (2 ∷ (bs ++ [])) ≡ ok ks = sym (rw e refl) ∙ w in
          let bytes : ks ≡ 2 ∷ (bs ++ []) = cc same in
          let err' : deserialize_limits ((2 ∷ (bs ++ [])) ++ []) ≡ ok (limits i none true, []) =
            subst (λ k. deserialize_limits (k ++ []) ≡ ok (limits i none true, [])) bytes r in
          cc err'

  with_maximum :
      (m : ℕ) (s : Bool)
      → VarUint32.IsU32 m
      → Restores (serialize_limits (limits i (some m) s)) deserialize_limits (limits i (some m) s)
  unfolding limits serialize_limits deserialize_limits limits_of maximum_of max_flags limits_flags
      serialize_maximum
  with_maximum m true k = Restores-bind _ (Uint8.Uint8-Restores 3) (
      Restores-bind _ (VarUint32.serialize_u32-Restores i h) (
        Restores-map _ (Restores-map _ (VarUint32.serialize_u32-Restores m k) (λ rest. refl))
          (λ rest. refl)))
  with_maximum m false k = Restores-bind _ (Uint8.Uint8-Restores 1) (
      Restores-bind _ (VarUint32.serialize_u32-Restores i h) (
        Restores-map _ (Restores-map _ (VarUint32.serialize_u32-Restores m k) (λ rest. refl))
          (λ rest. refl)))

limits_cases :
    (i : ℕ) (max : Option ℕ) (s : Bool)
    → IsNarrow (limits i max s)
    → Restores (serialize_limits (limits i max s)) deserialize_limits (limits i max s)
      ↔ IsReadable (limits i max s)
unfolding limits
limits_cases i none true (h, k) =
    (λ r _ _. shared_refused i h r, λ readable. absurd (readable refl refl))
limits_cases i none false (h, k) = (λ _ e. cc e, λ _. unshared i h)
limits_cases i (some m) s (h, k) = (λ _ _ e. cc e, λ _. with_maximum i h m s (k m refl))

-- Limits of 32-bit numbers that were written are read back, whatever follows them, exactly if they are
-- not shared or have a maximum.
pub ResizableLimits-Restores_iff :
    (l : ResizableLimits)
    → IsNarrow l
    → Restores (serialize_limits l) deserialize_limits l ↔ IsReadable l
unfolding limits
ResizableLimits-Restores_iff l = limits_cases l.initial l.maximum l.shared

pub GlobalType-Restores :
    (g : GlobalType) → Restores (serialize_global_type g) deserialize_global_type g
unfolding serialize_global_type deserialize_global_type
GlobalType-Restores g =
    Restores-bind _ (ValueType-Restores g.content_type)
      (Restores-map _ (VarUint1.VarUint1-Restores g.is_mutable) (λ rest. refl))

limits-Restores :
    (l : ResizableLimits)
    → IsNarrow l
    → IsReadable l
    → Restores (serialize_limits l) deserialize_limits l
limits-Restores l h r = (ResizableLimits-Restores_iff l h).1 r

pub TableType-Restores :
    (t : TableType)
    → IsNarrow t.limits
    → IsReadable t.limits
    → Restores (serialize_table_type t) deserialize_table_type t
unfolding serialize_table_type deserialize_table_type
TableType-Restores t h r =
    Restores-bind _ (TableElementType-Restores t.elem_type)
      (Restores-map _ (limits-Restores t.limits h r) (λ rest. refl))

-- The kind is written as a `VarInt7` and read as a `VarUint7`.
kind : (k : ℕ) → k < 256 → Restores (VarInt7.serialize (pos k)) VarUint7.deserialize k
unfolding VarInt7.serialize VarUint7.deserialize
kind k h = record { bytes = k ∷ []; written = ground arith; reads = λ rest. refl }

-- What makes the external part of an import readable.
abbrev pub IsReadableExternal : External → Type 0
IsReadableExternal (function index) = VarUint32.IsU32 index
IsReadableExternal (table t) = IsNarrow t.limits × IsReadable t.limits
IsReadableExternal (memory m) = IsNarrow m.memory_limits × IsReadable m.memory_limits
IsReadableExternal (global g) = Unit

pub External-Restores :
    (e : External) → IsReadableExternal e → Restores (serialize_external e) deserialize_external e
unfolding serialize_external deserialize_external external_of serialize_memory_type
    deserialize_memory_type
External-Restores (function index) h =
    Restores-bind _ (VarUint7.VarUint7-Restores 0)
      (Restores-map _ (VarUint32.serialize_u32-Restores index h) (λ rest. refl))
External-Restores (table t) (h, r) =
    Restores-bind _ (kind 1 (omega arith))
      (Restores-map _ (TableType-Restores t h r) (λ rest. refl))
External-Restores (memory m) (h, r) = Restores-bind _ (kind 2 (omega arith)) (
    Restores-map _ (Restores-map _ (limits-Restores m.memory_limits h r) (λ rest. refl))
      (λ rest. refl))
External-Restores (global g) h =
    Restores-bind _ (kind 3 (omega arith)) (Restores-map _ (GlobalType-Restores g) (λ rest. refl))

abbrev IsText : Bytes → Type 0
IsText s = (Text.is_utf8 s ≡ true) × (length s < 2 ^ 32)

-- An import is read back, whatever follows it: its two strings are UTF-8 and shorter than 2 ^ 32
-- bytes, its numbers are of 32 bits, and limits in it are not shared or have a maximum.
pub ImportEntry-Restores :
    (e : ImportEntry)
    → IsText e.module_str
    → IsText e.field_str
    → IsReadableExternal e.external
    → Restores (serialize_import_entry e) deserialize_import_entry e
unfolding serialize_import_entry deserialize_import_entry
ImportEntry-Restores e (mu, ml) (fu, fl) h =
    Restores-bind _ (Text.String-Restores e.module_str mu ml) (
      Restores-bind _ (Text.String-Restores e.field_str fu fl)
        (Restores-map _ (External-Restores e.external h) (λ rest. refl)))

pub MemoryType-Restores :
    (m : MemoryType)
    → IsNarrow m.memory_limits
    → IsReadable m.memory_limits
    → Restores (serialize_memory_type m) deserialize_memory_type m
unfolding serialize_memory_type deserialize_memory_type
MemoryType-Restores m h r = Restores-map _ (limits-Restores m.memory_limits h r) (λ rest. refl)
