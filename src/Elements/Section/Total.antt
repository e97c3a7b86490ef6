-- ===== src/Elements/Section/Total.antt =====
-- The reader of sections ends on every input, and finds the end of a module only where nothing is left.
use parity_wasm.Base.{
  ℕ, ap, Bool, ◌≡◌, ◌≢◌, ◌↔◌, refl, false, [], ◌∷◌, length, Outcome, ok, err, panic, out_of_fuel,
  arith,
}
use parity_wasm.Elements.Error.{Error, is_eof, unexpected_eof}
use parity_wasm.Elements.Codec.{Bytes}
use parity_wasm.Elements.Total.{
  IsTotal, IsTotal-bind, IsTotal-pure, Ends, returned, refused, Ends-le,
}
use parity_wasm.Elements.Primitives.ByteOrder.{LittleEndian}
use parity_wasm.Elements.Primitives.VarUint7
use parity_wasm.Elements.Primitives.Text
use parity_wasm.Elements.Primitives.Total.{reader_rules}
use parity_wasm.Elements.Types.Total.{type-IsTotal}
use parity_wasm.Elements.ImportEntry.Total.{
  import_entry-IsTotal, table_type-IsTotal, memory_type-IsTotal,
}
use parity_wasm.Elements.ExportEntry.Total.{export_entry-IsTotal}
use parity_wasm.Elements.Segment.Total.{
  element_segment-IsTotal, data_segment-IsTotal, global_entry-IsTotal,
}
use parity_wasm.Elements.Func.Total.{func-IsTotal, func_body-IsTotal}
use parity_wasm.Elements.Section.RoundTrip.{nothing_left}
use parity_wasm.Elements.Section.SectionReader.{
  read_ahead-IsTotal, in_section-IsTotal, entries-IsTotal,
}
use parity_wasm.Elements.Section.{
  section_of, after_id, deserialize, custom_of, deserialize_custom_section,
}

custom_of-IsTotal : (n : ℕ) (o : Outcome Error (Bytes × Bytes)) → Ends 0 n o → IsTotal (custom_of o)
unfolding custom_of
custom_of-IsTotal n (ok (text, payload)) (returned h) = IsTotal-pure _
custom_of-IsTotal n (err e) (refused h) = record { at = λ src. refused h }
custom_of-IsTotal n panic h = elim h [ ]
custom_of-IsTotal n out_of_fuel h = elim h [ ]

custom-IsTotal : IsTotal deserialize_custom_section
unfolding deserialize_custom_section
custom-IsTotal =
    IsTotal-bind _ _ (read_ahead-IsTotal 16384 (omega arith))
      (λ buf. custom_of-IsTotal (length buf) _ (Text.Text-IsTotal.at buf))

says_eof : {A : Type 0} → Outcome Error A → Bool
says_eof (err e) = is_eof e
says_eof _ = false

Ends-no_eof :
    {A : Type 0} {k n : ℕ} {o : Outcome Error (A × Bytes)} → Ends k n o → o ≢ err unexpected_eof
unfolding says_eof
Ends-no_eof (returned h) e = cc e
Ends-no_eof (refused h) e = let said = ap says_eof e in cc (h, said)

module _ (le : LittleEndian) where
  section_of-IsTotal : (id : ℕ) → IsTotal (section_of le id)
  unfolding section_of
  section_of-IsTotal id =
      search
        (
          reader_rules, custom-IsTotal, in_section-IsTotal, entries-IsTotal, type-IsTotal,
          import_entry-IsTotal, func-IsTotal, table_type-IsTotal, memory_type-IsTotal,
          global_entry-IsTotal, export_entry-IsTotal, element_segment-IsTotal, func_body-IsTotal,
          data_segment-IsTotal,
        )
        depth 40

  pub section-Ends : (b : ℕ) (src : Bytes) → Ends 1 (length (b ∷ src)) (deserialize le (b ∷ src))
  unfolding deserialize after_id VarUint7.deserialize
  section-Ends b src = Ends-le (omega arith) ((section_of-IsTotal b).at src)

  -- Reading a section returns `UnexpectedEof` exactly where no byte is left.
  pub section_end_iff : (src : Bytes) → (deserialize le src ≡ err unexpected_eof) ↔ (src ≡ [])
  section_end_iff [] = ((λ e. refl), λ e. nothing_left le)
  section_end_iff (b ∷ src) = ((λ e. absurd (Ends-no_eof (section-Ends b src) e)), λ e. cc e)
