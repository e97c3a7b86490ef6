-- ===== src/Elements/Segment.antt =====
-- src/elements/segment.rs and src/elements/global_entry.rs: segments and globals.
pub mod RoundTrip
pub mod Total
use parity_wasm.Base.{
  ℕ, Bool, Option, none, some, List, ok, [], ◌==◌, ◌||◌, not, if◌then◌else◌, length,
}
use parity_wasm.Elements.Error.{invalid_segment_flags}
use parity_wasm.Elements.Codec.{Bytes, Reader, ◌>>=◌, pure, fail, Written, ◌⊹◌}
use parity_wasm.Elements.Buffered.{buffered_read}
use parity_wasm.Elements.Primitives.ByteOrder.{LittleEndian}
use parity_wasm.Elements.Primitives.VarUint32
use parity_wasm.Elements.Primitives.CountedList
use parity_wasm.Elements.ImportEntry.{GlobalType, deserialize_global_type, serialize_global_type}
use parity_wasm.Elements.Ops.{Instruction}
use parity_wasm.Elements.Ops.Blocks as Blocks
use parity_wasm.Elements.Ops.Blocks.{deserialize_init_expr}

abbrev flag_memzero : ℕ
flag_memzero = 0

abbrev flag_passive : ℕ
flag_passive = 1

abbrev flag_mem_nonzero : ℕ
flag_mem_nonzero = 2

pub record ElementSegment : Type 0 where
  pub index : ℕ
  pub offset : Option (List Instruction)
  pub members : List ℕ
  pub passive : Bool

pub record DataSegment : Type 0 where
  pub index : ℕ
  pub offset : Option (List Instruction)
  pub value : Bytes
  pub passive : Bool

pub record GlobalEntry : Type 0 where
  pub global_type : GlobalType
  pub init_expr : List Instruction

-- What the two kinds of segments read first: `passive`, `index` and `offset`.
abbrev pub Head : Type 0
Head = Bool × ℕ × Option (List Instruction)

index_of : ℕ → Reader ℕ
index_of flags =
    if (flags == flag_memzero) || (flags == flag_passive)
    then pure 0
    else (if flags == flag_mem_nonzero
        then VarUint32.deserialize
        else fail (invalid_segment_flags flags))

module _ (le : LittleEndian) where
  offset_of : ℕ → Reader (Option (List Instruction))
  offset_of flags =
      if flags == flag_passive then pure none else (do e ← deserialize_init_expr le; pure (some e))

  head_of : ℕ → Reader Head
  unfolding index_of offset_of
  head_of flags = do
    index ← index_of flags
    offset ← offset_of flags
    pure (flags == flag_passive, index, offset)

  unfoldable pub deserialize_head : Reader Head
  unfolding head_of
  deserialize_head = do flags ← VarUint32.deserialize; head_of flags

  serialize_offset : Option (List Instruction) → Written
  serialize_offset (some e) = Blocks.serialize le e
  serialize_offset none = ok []

  unfoldable pub serialize_head : Head → Written
  unfolding serialize_offset
  serialize_head (passive, index, offset) =
      if passive
      then (VarUint32.serialize flag_passive ⊹ serialize_offset offset)
      else if not (index == 0)
      then (VarUint32.serialize flag_mem_nonzero
          ⊹ VarUint32.serialize index
          ⊹ serialize_offset offset)
      else (VarUint32.serialize flag_memzero ⊹ serialize_offset offset)

  unfoldable pub deserialize_element_segment : Reader ElementSegment
  deserialize_element_segment = do
    (passive, index, offset) ← deserialize_head
    members ← CountedList.deserialize VarUint32.deserialize
    pure (record { index = index; offset = offset; members = members; passive = passive })

  unfoldable pub serialize_element_segment : ElementSegment → Written
  serialize_element_segment s =
      serialize_head (s.passive, s.index, s.offset)
      ⊹ CountedList.serialize VarUint32.serialize (length s.members) s.members

  unfoldable pub deserialize_data_segment : Reader DataSegment
  deserialize_data_segment = do
    (passive, index, offset) ← deserialize_head
    value_len ← VarUint32.deserialize
    value ← buffered_read 65536 value_len
    pure (record { index = index; offset = offset; value = value; passive = passive })

  unfoldable pub serialize_data_segment : DataSegment → Written
  serialize_data_segment s =
      serialize_head (s.passive, s.index, s.offset)
      ⊹ VarUint32.serialize_usize (length s.value)
      ⊹ ok s.value

  unfoldable pub deserialize_global_entry : Reader GlobalEntry
  deserialize_global_entry = do
    global_type ← deserialize_global_type
    init_expr ← deserialize_init_expr le
    pure (record { global_type = global_type; init_expr = init_expr })

  unfoldable pub serialize_global_entry : GlobalEntry → Written
  serialize_global_entry g = serialize_global_type g.global_type ⊹ Blocks.serialize le g.init_expr
