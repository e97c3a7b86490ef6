-- ===== src/Elements/Segment/RoundTrip.antt =====
-- Segments and globals are read back from what was written.
use parity_wasm.Base.{
  ℕ, zero, suc, ◌<◌, ◌^◌, ◌≡◌, refl, true, false, none, some, List, [], ◌∷◌, ◌++◌, ok, length, All,
  arith, ◌==◌,
}
use parity_wasm.Elements.Codec.{Restores, Restores-bind, Restores-map, read-Reads}
use parity_wasm.Elements.Buffered.{buffered_read, buffered_read-eq-read}
use parity_wasm.Elements.Primitives.ByteOrder.{LittleEndian}
use parity_wasm.Elements.Primitives.VarUint32
use parity_wasm.Elements.Primitives.CountedList
use parity_wasm.Elements.ImportEntry.RoundTrip.{GlobalType-Restores}
use parity_wasm.Elements.Ops.{Instruction, end_op}
use parity_wasm.Elements.Ops.RoundTrip.Readable.{IsReadable}
use parity_wasm.Elements.Ops.RoundTrip.Operands.{All-Restores}
use parity_wasm.Elements.Ops.Blocks as Blocks
use parity_wasm.Elements.Ops.Blocks.{deserialize_init_expr}
use parity_wasm.Elements.Ops.Blocks.InitExpr.{IsPlain, InitExpr-Restores}
use parity_wasm.Elements.Segment.{
  ElementSegment, DataSegment, GlobalEntry, Head, index_of, offset_of, head_of, deserialize_head,
  serialize_offset, serialize_head, deserialize_element_segment, serialize_element_segment,
  deserialize_data_segment, serialize_data_segment, deserialize_global_entry,
  serialize_global_entry,
}

-- Readable instructions with one `End`, the last.
abbrev pub IsInitExpr : List Instruction → Type 0
IsInitExpr e =
    (is : List Instruction) × (e ≡ is ++ end_op ∷ [])
    × All IsPlain is
    × All IsReadable (is ++ end_op ∷ [])

-- A segment is passive, of index 0 and without an offset, or it is not passive and has an offset.
abbrev pub IsHead : Head → Type 0
IsHead (true, index, none) = index ≡ 0
IsHead (true, index, some e) = ⊥
IsHead (false, index, none) = ⊥
IsHead (false, index, some e) = VarUint32.IsU32 index × IsInitExpr e

positive : (k : ℕ) → (suc k == 0) ≡ false
positive k = ground arith

module _ (le : LittleEndian) where
  init_expr-Restores :
      (e : List Instruction)
      → IsInitExpr e
      → Restores (Blocks.serialize le e) (deserialize_init_expr le) e
  init_expr-Restores e (is, same, ps, hs) = rw same (InitExpr-Restores le is ps hs)

  head-Restores : (h : Head) → IsHead h → Restores (serialize_head le h) (deserialize_head le) h
  unfolding serialize_head deserialize_head head_of index_of offset_of serialize_offset
  head-Restores (true, index, none) h = rw h (
      Restores-bind _ (VarUint32.serialize_u32-Restores 1 (omega arith))
        (record { bytes = []; written = refl; reads = λ rest. refl }))
  head-Restores (true, index, some e) h = elim h [ ]
  head-Restores (false, index, none) h = elim h [ ]
  head-Restores (false, zero, some e) (_, h) =
      Restores-bind _ (VarUint32.serialize_u32-Restores 0 (omega arith))
        (Restores-map _ (Restores-map _ (init_expr-Restores e h) (λ rest. refl)) (λ rest. refl))
  head-Restores (false, suc k, some e) (u, h) = rw (positive k) (
      Restores-bind _ (VarUint32.serialize_u32-Restores 2 (omega arith)) (
        Restores-bind _ (VarUint32.serialize_u32-Restores (suc k) u)
          (Restores-map _ (Restores-map _ (init_expr-Restores e h) (λ rest. refl)) (λ rest. refl))))

  -- An element segment is read back, whatever follows it: it is passive, of index 0 and without an
  -- offset, or it is not passive and has a readable offset; its numbers are of 32 bits, and so is the
  -- number of its members.
  pub ElementSegment-Restores :
      (s : ElementSegment)
      → IsHead (s.passive, s.index, s.offset)
      → length s.members < 2 ^ 32
      → All VarUint32.IsU32 s.members
      → Restores (serialize_element_segment le s) (deserialize_element_segment le) s
  unfolding serialize_element_segment deserialize_element_segment
  ElementSegment-Restores s h k ks =
      Restores-bind _ (head-Restores (s.passive, s.index, s.offset) h) (
        Restores-map _
          (CountedList.CountedList-Restores _ _ s.members k (All-Restores s.members ks))
          (λ rest. refl))

  -- A data segment is read back, whatever follows it: it is passive, of index 0 and without an offset,
  -- or it is not passive and has a readable offset; its index is of 32 bits, and so is the number of
  -- its bytes.
  pub DataSegment-Restores :
      (s : DataSegment)
      → IsHead (s.passive, s.index, s.offset)
      → length s.value < 2 ^ 32
      → Restores (serialize_data_segment le s) (deserialize_data_segment le) s
  unfolding serialize_data_segment deserialize_data_segment
  DataSegment-Restores s h k =
      let value : Restores (ok s.value) (buffered_read 65536 (length s.value)) s.value = record {
        bytes = s.value;
        written = refl;
        reads = λ rest.
            rw (buffered_read-eq-read 65536 (length s.value) (s.value ++ rest) (omega arith))
              (read-Reads s.value rest);
      } in
      Restores-bind _ (head-Restores (s.passive, s.index, s.offset) h) (
        Restores-bind _ (VarUint32.serialize_usize-Restores (length s.value) k)
          (Restores-map _ value (λ rest. refl)))

  -- A global with a readable initial value is read back, whatever follows it.
  pub GlobalEntry-Restores :
      (g : GlobalEntry)
      → IsInitExpr g.init_expr
      → Restores (serialize_global_entry le g) (deserialize_global_entry le) g
  unfolding serialize_global_entry deserialize_global_entry
  GlobalEntry-Restores g h =
      Restores-bind _ (GlobalType-Restores g.global_type)
        (Restores-map _ (init_expr-Restores g.init_expr h) (λ rest. refl))
