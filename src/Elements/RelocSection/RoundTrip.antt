-- ===== src/Elements/RelocSection/RoundTrip.antt =====
-- Relocation entries are read back from what was written, and so is what follows a section's name.
use parity_wasm.Base.{
  ℕ, zero, suc, ◌<◌, ◌^◌, ◌≡◌, ◌==◌, refl, true, false, List, [], ◌∷◌, Option, none, some, length,
  All, arith,
}
use parity_wasm.Base.Int.{ℤ}
use parity_wasm.Elements.Codec.{Bytes, Restores, Restores-bind, Restores-map, ◌⊹◌}
use parity_wasm.Elements.Primitives.VarUint7
use parity_wasm.Elements.Primitives.VarUint32
use parity_wasm.Elements.Primitives.VarInt32
use parity_wasm.Elements.Primitives.CountedList
use parity_wasm.Elements.Primitives.Text
use parity_wasm.Elements.RelocSection.{
  RelocationEntry, function_index_leb, table_index_sleb, table_index_i32, memory_address_leb,
  memory_address_sleb, memory_address_i32, type_index_leb, global_index_leb, read_pair, read_triple,
  entry_of, deserialize_relocation_entry, serialize_relocation_entry, RelocSection, section_name_of,
  deserialize_reloc_section, serialize_section_name, serialize_reloc_payload,
}

abbrev IsPair : ℕ → ℕ → Type 0
IsPair offset index = VarUint32.IsU32 offset × VarUint32.IsU32 index

abbrev pub IsEntry : RelocationEntry → Type 0
IsEntry (function_index_leb offset index) = IsPair offset index
IsEntry (table_index_sleb offset index) = IsPair offset index
IsEntry (table_index_i32 offset index) = IsPair offset index
IsEntry (memory_address_leb offset index addend) = IsPair offset index × VarInt32.IsI32 addend
IsEntry (memory_address_sleb offset index addend) = IsPair offset index × VarInt32.IsI32 addend
IsEntry (memory_address_i32 offset index addend) = IsPair offset index × VarInt32.IsI32 addend
IsEntry (type_index_leb offset index) = IsPair offset index
IsEntry (global_index_leb offset index) = IsPair offset index

pair-Restores :
    (entry : ℕ → ℕ → RelocationEntry) (offset index : ℕ)
    → IsPair offset index
    → Restores
        (VarUint32.serialize offset ⊹ VarUint32.serialize index)
        (read_pair entry)
        (entry offset index)
pair-Restores entry offset index (h, k) =
    Restores-bind _ (VarUint32.serialize_u32-Restores offset h)
      (Restores-map _ (VarUint32.serialize_u32-Restores index k) (λ rest. refl))

triple-Restores :
    (entry : ℕ → ℕ → ℤ → RelocationEntry) (offset index : ℕ) (addend : ℤ)
    → IsPair offset index × VarInt32.IsI32 addend
    → Restores
        (VarUint32.serialize offset ⊹ VarUint32.serialize index ⊹ VarInt32.serialize addend)
        (read_triple entry)
        (entry offset index addend)
triple-Restores entry offset index addend ((h, k), l) =
    Restores-bind _ (VarUint32.serialize_u32-Restores offset h) (
      Restores-bind _ (VarUint32.serialize_u32-Restores index k)
        (Restores-map _ (VarInt32.serialize_i32-Restores addend l) (λ rest. refl)))

pub RelocationEntry-Restores :
    (e : RelocationEntry)
    → IsEntry e
    → Restores (serialize_relocation_entry e) deserialize_relocation_entry e
unfolding serialize_relocation_entry deserialize_relocation_entry entry_of
RelocationEntry-Restores (function_index_leb o i) h =
    Restores-bind _ (VarUint7.VarUint7-Restores 0) (pair-Restores function_index_leb o i h)
RelocationEntry-Restores (table_index_sleb o i) h =
    Restores-bind _ (VarUint7.VarUint7-Restores 1) (pair-Restores table_index_sleb o i h)
RelocationEntry-Restores (table_index_i32 o i) h =
    Restores-bind _ (VarUint7.VarUint7-Restores 2) (pair-Restores table_index_i32 o i h)
RelocationEntry-Restores (memory_address_leb o i a) h =
    Restores-bind _ (VarUint7.VarUint7-Restores 3) (triple-Restores memory_address_leb o i a h)
RelocationEntry-Restores (memory_address_sleb o i a) h =
    Restores-bind _ (VarUint7.VarUint7-Restores 4) (triple-Restores memory_address_sleb o i a h)
RelocationEntry-Restores (memory_address_i32 o i a) h =
    Restores-bind _ (VarUint7.VarUint7-Restores 5) (triple-Restores memory_address_i32 o i a h)
RelocationEntry-Restores (type_index_leb o i) h =
    Restores-bind _ (VarUint7.VarUint7-Restores 6) (pair-Restores type_index_leb o i h)
RelocationEntry-Restores (global_index_leb o i) h =
    Restores-bind _ (VarUint7.VarUint7-Restores 7) (pair-Restores global_index_leb o i h)

entries-Restores :
    (es : List RelocationEntry)
    → All IsEntry es
    → All (λ e. Restores (serialize_relocation_entry e) deserialize_relocation_entry e) es
entries-Restores [] h = tt
entries-Restores (e ∷ es) (h, hs) = (RelocationEntry-Restores e h, entries-Restores es hs)

-- The section has a name of its own exactly if its id is 0.
abbrev pub IsNamed : ℕ → Option Bytes → Type 0
IsNamed zero (some s) = (Text.is_utf8 s ≡ true) × (length s < 2 ^ 32)
IsNamed zero none = ⊥
IsNamed (suc id) (some s) = ⊥
IsNamed (suc id) none = VarUint32.IsU32 (suc id)

positive : (k : ℕ) → (suc k == 0) ≡ false
positive k = ground arith

head-Restores :
    (id : ℕ) (s : Option Bytes)
    → IsNamed id s
    → Restores (serialize_section_name s) (section_name_of id) s
unfolding section_name_of serialize_section_name
head-Restores zero (some s) (u, h) = Restores-map _ (Text.String-Restores s u h) (λ rest. refl)
head-Restores zero none h = elim h [ ]
head-Restores (suc id) (some s) h = elim h [ ]
head-Restores (suc id) none h =
    rw (positive id) (record { bytes = []; written = refl; reads = λ rest. refl })

id_fits : (id : ℕ) (s : Option Bytes) → IsNamed id s → VarUint32.IsU32 id
id_fits zero s h = omega arith
id_fits (suc id) (some s) h = elim h [ ]
id_fits (suc id) none h = h

-- What follows the name of a relocation section is read back, whatever follows it: the section has a
-- name of its own exactly if its id is 0, and its numbers and lengths are of their widths.
pub RelocSection-Restores :
    (r : RelocSection)
    → IsNamed r.section_id r.relocation_section_name
    → length r.entries < 2 ^ 32
    → All IsEntry r.entries
    → Restores (serialize_reloc_payload r) (deserialize_reloc_section r.name) r
unfolding serialize_reloc_payload deserialize_reloc_section
RelocSection-Restores r n k hs =
    Restores-bind _ (VarUint32.serialize_u32-Restores r.section_id (id_fits _ _ n)) (
      Restores-bind _ (head-Restores r.section_id r.relocation_section_name n) (
        Restores-map _
          (CountedList.CountedList-Restores _ _ r.entries k (entries-Restores r.entries hs))
          (λ rest. refl)))
