-- ===== src/Elements/Func/Locals.antt =====
-- A function body of more locals than 32 bits count.
use parity_wasm.Base.{◌≤◌, ◌<◌, ◌^◌, ◌≡◌, refl, List, [], ◌∷◌, ◌++◌, ok, err, length, All, arith}
use parity_wasm.Elements.Error.{too_many_locals}
use parity_wasm.Elements.Codec.{Bytes, Restores}
use parity_wasm.Elements.Primitives.ByteOrder.{LittleEndian}
use parity_wasm.Elements.Primitives.VarUint32
use parity_wasm.Elements.Primitives.CountedList
use parity_wasm.Elements.Section.SectionReader.{in_section_refused, IsShort}
use parity_wasm.Elements.Ops.Blocks as Blocks
use parity_wasm.Elements.Func.{
  Local, FuncBody, serialize_local, deserialize_local, deserialize_body, deserialize_func_body,
  serialize_body, serialize_func_body,
}
use parity_wasm.Elements.Func.RoundTrip.{Local-Restores, local_count, add_counts-none}

each-Restores :
    (ls : List Local)
    → All (λ l. VarUint32.IsU32 l.count) ls
    → All (λ l. Restores (serialize_local l) deserialize_local l) ls
each-Restores [] h = tt
each-Restores (l ∷ ls) (h, hs) = (Local-Restores l h, each-Restores ls hs)

module _ (le : LittleEndian) where
  body_refused :
      (f : FuncBody) (code : Bytes)
      → length f.locals < 2 ^ 32
      → All (λ l. VarUint32.IsU32 l.count) f.locals
      → 2 ^ 32 ≤ local_count f.locals
      → Blocks.serialize le f.instructions ≡ ok code
      → (bs : Bytes) × (serialize_body le f ≡ ok bs)
        × (deserialize_body le bs ≡ err too_many_locals)
  unfolding serialize_body deserialize_body
  body_refused f code few each many written =
      let r = CountedList.CountedList-Restores _ _ f.locals few (each-Restores f.locals each) in
      (
        r.bytes ++ code,
        rw (r.written, written) refl,
        rw (r.reads code, add_counts-none 0 f.locals (omega arith) (omega (arith, many))) refl,
      )

  -- A function body of at least 2 ^ 32 locals, also one of exactly 2 ^ 32, is written, and what was
  -- written is refused as `TooManyLocals`, whatever follows it: each group of locals and their number
  -- fit 32 bits, its code can be written, and it fits a length of 32 bits.
  pub many_locals_refused :
      (f : FuncBody) (code : Bytes)
      → length f.locals < 2 ^ 32
      → All (λ l. VarUint32.IsU32 l.count) f.locals
      → 2 ^ 32 ≤ local_count f.locals
      → Blocks.serialize le f.instructions ≡ ok code
      → IsShort (serialize_body le f)
      → (bs : Bytes) × (serialize_func_body le f ≡ ok bs)
        × ((rest : Bytes) → deserialize_func_body le (bs ++ rest) ≡ err too_many_locals)
  unfolding serialize_func_body deserialize_func_body
  many_locals_refused f code few each many written short =
      let (ks, w, refused) = body_refused f code few each many written in
      let (bs, counted, reads) = in_section_refused (deserialize_body le) ks refused (short ks w) in
      (bs, rw w counted, reads)
