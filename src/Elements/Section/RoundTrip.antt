-- ===== src/Elements/Section/RoundTrip.antt =====
-- Sections are read back from what was written; those of names and relocations as custom ones.
use parity_wasm.Base.{
  ℕ, ◌<◌, ◌^◌, ◌≡◌, refl, List, [], ◌∷◌, ◌++◌, ok, err, length, All, true, arith,
}
use parity_wasm.Elements.Error.{unexpected_eof}
use parity_wasm.Elements.Codec.{
  Bytes, Reader, Reads, Written, ◌⊹◌, ◌>>=◌, pure, Restores, Restores-map,
}
use parity_wasm.Elements.Primitives.ByteOrder.{LittleEndian}
use parity_wasm.Elements.Primitives.VarUint7
use parity_wasm.Elements.Primitives.VarUint32
use parity_wasm.Elements.Primitives.CountedWriter.{counted}
use parity_wasm.Elements.Primitives.CountedList
use parity_wasm.Elements.Primitives.Text
use parity_wasm.Elements.Types.{TypeEntry, function, serialize_type, deserialize_type}
use parity_wasm.Elements.Types.RoundTrip.{FunctionType-Restores}
use parity_wasm.Elements.ImportEntry.{
  ImportEntry, TableType, MemoryType, serialize_import_entry, deserialize_import_entry,
  serialize_table_type, deserialize_table_type, serialize_memory_type, deserialize_memory_type,
}
use parity_wasm.Elements.ImportEntry.RoundTrip as Import
use parity_wasm.Elements.ExportEntry.{ExportEntry, serialize_export_entry, deserialize_export_entry}
use parity_wasm.Elements.ExportEntry.RoundTrip as Export
use parity_wasm.Elements.Segment.{
  ElementSegment, DataSegment, deserialize_element_segment, serialize_element_segment,
  deserialize_data_segment, serialize_data_segment, deserialize_global_entry,
  serialize_global_entry,
}
use parity_wasm.Elements.Segment.RoundTrip as Segment
use parity_wasm.Elements.Func.{
  FuncBody, serialize_func, deserialize_func, serialize_func_body, deserialize_func_body,
  serialize_body,
}
use parity_wasm.Elements.Func.RoundTrip as Func
use parity_wasm.Elements.NameSection.{NameSection, serialize_name_section}
use parity_wasm.Elements.RelocSection.{
  RelocSection, serialize_reloc_section, serialize_reloc_payload,
}
use parity_wasm.Elements.Section.SectionReader.{
  IsShort, entries-Restores, in_section-Restores, buffer-Restores, read_entries,
}
use parity_wasm.Elements.Section as Section
use parity_wasm.Elements.Section.{
  CustomSection, deserialize_custom_section, serialize_custom_section, custom_of,
}
use parity_wasm.Elements.Section.Lists.{serialize_entries}

-- A string that a `String` can hold and a length of 32 bits can count.
abbrev pub IsText : Bytes → Type 0
IsText s = (Text.is_utf8 s ≡ true) × (length s < 2 ^ 32)

abbrev pub IsTypeEntry : TypeEntry → Type 0
IsTypeEntry (function f) = (f.form ≡ 0x60) × (length f.params < 2 ^ 32)

abbrev pub IsImport : ImportEntry → Type 0
IsImport e = IsText e.module_str × IsText e.field_str × Import.IsReadableExternal e.external

abbrev pub IsTable : TableType → Type 0
IsTable t = Import.IsNarrow t.limits × Import.IsReadable t.limits

abbrev pub IsMemory : MemoryType → Type 0
IsMemory m = Import.IsNarrow m.memory_limits × Import.IsReadable m.memory_limits

abbrev pub IsExport : ExportEntry → Type 0
IsExport e = IsText e.field_str × VarUint32.IsU32 (Export.index e.internal)

abbrev pub IsElement : ElementSegment → Type 0
IsElement s =
    Segment.IsHead (s.passive, s.index, s.offset)
    × (length s.members < 2 ^ 32)
    × All VarUint32.IsU32 s.members

abbrev pub IsData : DataSegment → Type 0
IsData s = Segment.IsHead (s.passive, s.index, s.offset) × (length s.value < 2 ^ 32)

-- A list whose elements have the property, whose length and whose bytes can be counted in 32 bits.
abbrev pub IsList : {A : Type 0} → (A → Type 0) → (A → Written) → List A → Type 0
IsList P s xs = All P xs × (length xs < 2 ^ 32) × IsShort (CountedList.serialize s (length xs) xs)

pub All-map :
    {A : Type 0} {P Q : A → Type 0} (f : (x : A) → P x → Q x) (xs : List A) → All P xs → All Q xs
All-map f [] h = tt
All-map f (x ∷ xs) (h, hs) = (f x h, All-map f xs hs)

module _ (le : LittleEndian) where
  abbrev pub IsBody : FuncBody → Type 0
  IsBody f = Func.IsBody f × IsShort (serialize_body le f)

  -- What each kind of section must hold to be read back as it was.
  abbrev pub IsReadable : Section.Section → Type 0
  IsReadable (Section.unparsed id payload) = ⊥
  IsReadable (Section.custom c) = IsText c.name × IsShort (Text.serialize c.name ⊹ ok c.payload)
  IsReadable (Section.type entries) = IsList IsTypeEntry serialize_type entries
  IsReadable (Section.import entries) = IsList IsImport serialize_import_entry entries
  IsReadable (Section.function entries) =
      IsList (λ f. VarUint32.IsU32 f.type_ref) serialize_func entries
  IsReadable (Section.table entries) = IsList IsTable serialize_table_type entries
  IsReadable (Section.memory entries) = IsList IsMemory serialize_memory_type entries
  IsReadable (Section.global entries) =
      IsList (λ g. Segment.IsInitExpr g.init_expr) (serialize_global_entry le) entries
  IsReadable (Section.export entries) = IsList IsExport serialize_export_entry entries
  IsReadable (Section.start index) = VarUint32.IsU32 index
  IsReadable (Section.element entries) = IsList IsElement (serialize_element_segment le) entries
  IsReadable (Section.code bodies) = IsList IsBody (serialize_func_body le) bodies
  IsReadable (Section.data_segments entries) = IsList IsData (serialize_data_segment le) entries
  IsReadable (Section.name n) = ⊥
  IsReadable (Section.reloc r) = ⊥

type-Restores : (t : TypeEntry) → IsTypeEntry t → Restores (serialize_type t) deserialize_type t
unfolding serialize_type deserialize_type
type-Restores (function f) (h, k) = Restores-map _ (FunctionType-Restores f h k) (λ rest. refl)

pub custom-Restores :
    (c : CustomSection)
    → IsText c.name
    → IsShort (Text.serialize c.name ⊹ ok c.payload)
    → Restores (serialize_custom_section c) deserialize_custom_section c
unfolding serialize_custom_section deserialize_custom_section custom_of counted
custom-Restores c (u, h) short =
    let t = Text.String-Restores c.name u h in
    let written : (Text.serialize c.name ⊹ ok c.payload) ≡ ok (t.bytes ++ c.payload) =
      rw t.written refl in
    let buf = buffer-Restores 16384 (t.bytes ++ c.payload) (omega arith) (short _ written) in
    rw written (Restores-map _ buf (λ rest. rw (t.reads c.payload) refl))

-- "name"
abbrev pub name_text : Bytes
name_text = 0x6e ∷ 0x61 ∷ 0x6d ∷ 0x65 ∷ []

module _ (le : LittleEndian) where
  of_id :
      {w : Written} {s : Section.Section} (id : ℕ)
      → Restores w (Section.section_of le id) s
      → Restores (VarUint7.serialize id ⊹ w) (Section.deserialize le) s
  unfolding VarUint7.serialize VarUint7.deserialize Section.deserialize Section.after_id
  of_id id p = record { bytes = id ∷ p.bytes; written = rw p.written refl; reads = p.reads }

  -- What the end of the input is for the one who reads sections.
  pub nothing_left : Section.deserialize le [] ≡ err unexpected_eof
  unfolding VarUint7.deserialize Section.deserialize Section.after_id
  nothing_left = refl

  -- Something is written for every section.
  pub nonempty :
      (s : Section.Section) (bs : Bytes) → Reads (Section.deserialize le) bs s → 0 < length bs
  nonempty s [] r = cc (nothing_left, r [])
  nonempty s (b ∷ bs) r = omega arith

  listed :
      {A : Type 0} {P : A → Type 0} (con : List A → Section.Section) (s : A → Written)
      (d : Reader A)
      → ((x : A) → P x → Restores (s x) d x)
      → (xs : List A) → IsList P s xs
      → Restores
          (serialize_entries s xs)
          (read_entries d >>= λ entries. pure (con entries))
          (con xs)
  listed con s d f xs (h, k, short) =
      Restores-map _ (entries-Restores s d xs k (All-map f xs h) short) (λ rest. refl)

  index-IsShort : (index : ℕ) → VarUint32.IsU32 index → IsShort (VarUint32.serialize index)
  index-IsShort index h ks e =
      let (bs, w, _, _, _, hi, _) = VarUint32.serialize_u32_shortest index h in
      let same : ks ≡ bs = cc (e, w) in rw same (omega (arith, hi))

  -- A section other than of names, relocations or unparsed is read back, whatever follows it: what it
  -- lists is readable, and its lists and bytes can be counted in 32 bits.
  pub Section-Restores :
      (s : Section.Section)
      → IsReadable le s
      → Restores (Section.serialize le s) (Section.deserialize le) s
  unfolding Section.serialize Section.section_of
  Section-Restores (Section.unparsed id payload) h = elim h [ ]
  Section-Restores (Section.custom c) (h, k) =
      of_id 0x00 (Restores-map _ (custom-Restores c h k) (λ rest. refl))
  Section-Restores (Section.type entries) h =
      of_id 0x01 (listed Section.type serialize_type deserialize_type type-Restores entries h)
  Section-Restores (Section.import entries) h = of_id 0x02 (
      listed Section.import serialize_import_entry deserialize_import_entry
        (λ e (a, b, c). Import.ImportEntry-Restores e a b c) entries h)
  Section-Restores (Section.function entries) h =
      of_id 0x03
        (listed Section.function serialize_func deserialize_func Func.Func-Restores entries h)
  Section-Restores (Section.table entries) h = of_id 0x04 (
      listed Section.table serialize_table_type deserialize_table_type
        (λ t (a, b). Import.TableType-Restores t a b) entries h)
  Section-Restores (Section.memory entries) h = of_id 0x05 (
      listed Section.memory serialize_memory_type deserialize_memory_type
        (λ m (a, b). Import.MemoryType-Restores m a b) entries h)
  Section-Restores (Section.global entries) h = of_id 0x06 (
      listed Section.global (serialize_global_entry le) (deserialize_global_entry le)
        (Segment.GlobalEntry-Restores le) entries h)
  Section-Restores (Section.export entries) h = of_id 0x07 (
      listed Section.export serialize_export_entry deserialize_export_entry
        (λ e ((a, b), c). Export.ExportEntry-Restores e a b c) entries h)
  Section-Restores (Section.start index) h = of_id 0x08 (
      Restores-map _
        (in_section-Restores (VarUint32.serialize_u32-Restores index h) (index-IsShort index h))
        (λ rest. refl))
  Section-Restores (Section.element entries) h = of_id 0x09 (
      listed Section.element (serialize_element_segment le) (deserialize_element_segment le)
        (λ s (a, b, c). Segment.ElementSegment-Restores le s a b c) entries h)
  Section-Restores (Section.code bodies) h = of_id 0x0a (
      listed Section.code (serialize_func_body le) (deserialize_func_body le)
        (λ f (a, b). Func.FuncBody-Restores le f a b) bodies h)
  Section-Restores (Section.data_segments entries) h = of_id 0x0b (
      listed Section.data_segments (serialize_data_segment le) (deserialize_data_segment le)
        (λ s (a, b). Segment.DataSegment-Restores le s a b) entries h)
  Section-Restores (Section.name n) h = elim h [ ]
  Section-Restores (Section.reloc r) h = elim h [ ]

  -- A section of names is read back as the custom section `name`, whose payload is what was written
  -- of the names.
  pub name_section_reread :
      (n : NameSection) (payload : Bytes)
      → serialize_name_section n ≡ ok payload
      → IsShort (Text.serialize name_text ⊹ ok payload)
      → Restores
          (Section.serialize le (Section.name n))
          (Section.deserialize le)
          (Section.custom (record { name = name_text; payload = payload }))
  unfolding Section.serialize Section.section_of Section.name_custom Text.is_utf8
  name_section_reread n payload e short = rw e (
      of_id 0x00 (
        Restores-map _
          (custom-Restores (record { name = name_text; payload = payload }) (refl, omega arith)
            short)
          (λ rest. refl)))

  -- A section of relocations is read back as a custom section of its name, whose payload is what was
  -- written after the name.
  pub reloc_section_reread :
      (r : RelocSection) (payload : Bytes)
      → serialize_reloc_payload r ≡ ok payload
      → IsText r.name
      → IsShort (Text.serialize r.name ⊹ ok payload)
      → Restores
          (Section.serialize le (Section.reloc r))
          (Section.deserialize le)
          (Section.custom (record { name = r.name; payload = payload }))
  unfolding Section.serialize Section.section_of serialize_reloc_section serialize_custom_section
  reloc_section_reread r payload e text short = rw e (
      of_id 0x00 (
        Restores-map _ (custom-Restores (record { name = r.name; payload = payload }) text short)
          (λ rest. refl)))
