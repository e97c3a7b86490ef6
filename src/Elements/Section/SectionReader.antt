-- ===== src/Elements/Section/SectionReader.antt =====
-- src/elements/section.rs: `SectionReader`, which reads its bytes ahead and must use them all.
use parity_wasm.Base.{
  ℕ, ◌-◌, ◌<◌, ◌^◌, ◌≡◌, refl, ◌==◌, not, if◌then◌else◌, [], ◌++◌, append-nil, subst, ok, err,
  panic, out_of_fuel, Outcome, length, List, All, arith,
}
use parity_wasm.Io.{invalid_data}
use parity_wasm.Elements.Error.{Error, from_io}
use parity_wasm.Elements.Codec.{
  Bytes, Reader, ◌>>=◌, pure, Written, Restores, Restores-bind, Restores-map, read-Reads,
}
use parity_wasm.Elements.Total.{
  Ends, returned, refused, Ends-if, IsTotal, IsTotal-bind, IsTotal-pure,
}
use parity_wasm.Elements.Buffered.{buffered_read, buffered_read-eq-read, buffered_read-IsTotal}
use parity_wasm.Elements.Primitives.VarUint32
use parity_wasm.Elements.Primitives.CountedList
use parity_wasm.Elements.Primitives.CountedWriter.{counted, done}

abbrev pub entries_buffer_length : ℕ
entries_buffer_length = 16384

-- The cursor stands for the bytes that it has left.
pub record SectionReader : Type 0 where
  pub cursor : Bytes
  pub declared_length : ℕ

-- A length, and as many bytes.
unfoldable pub read_ahead : ℕ → Reader Bytes
read_ahead buffer_length = do len ← VarUint32.deserialize; buffered_read buffer_length len

unfoldable pub section_reader_new : Reader SectionReader
unfolding read_ahead
section_reader_new = do
  inner_buffer ← read_ahead entries_buffer_length
  pure (record { cursor = inner_buffer; declared_length = length inner_buffer })

module _ {A : Type 0} where
  -- What was read of the buffer, `close` on what is left, and the outer reader.
  close : ℕ → Outcome Error (A × Bytes) → Reader A
  close buf_length (ok (a, left)) src =
      if not (buf_length - length left == buf_length)
      then err (from_io invalid_data)
      else ok (a, src)
  close buf_length (err e) src = err e
  close buf_length panic src = panic
  close buf_length out_of_fuel src = out_of_fuel

  -- A read from `SectionReader::new` to `close`.
  unfoldable pub in_section : Reader A → Reader A
  unfolding close
  in_section d = do r ← section_reader_new; close r.declared_length (d r.cursor)

unfoldable pub read_entries : {A : Type 0} → Reader A → Reader (List A)
read_entries d = in_section (CountedList.deserialize d)

-- The number of bytes fits the length that is written before them.
abbrev pub IsShort : Written → Type 0
IsShort w = (bs : Bytes) → w ≡ ok bs → length bs < 2 ^ 32

-- Bytes that were counted are read into the buffer.
pub buffer-Restores :
    (size : ℕ) (bs : Bytes)
    → 0 < size
    → length bs < 2 ^ 32
    → Restores (done bs) (read_ahead size) bs
unfolding done read_ahead
buffer-Restores size bs h k =
    let r = VarUint32.serialize_usize-Restores (length bs) k in
    let len : Restores (ok r.bytes) VarUint32.deserialize (length bs) = record {
      bytes = r.bytes;
      written = refl;
      reads = r.reads;
    } in
    let all : Restores (ok bs) (buffered_read size (length bs)) bs = record {
      bytes = bs;
      written = refl;
      reads =
          λ rest. rw (buffered_read-eq-read size (length bs) (bs ++ rest) h) (read-Reads bs rest);
    } in
    rw r.written (Restores-bind (buffered_read size) len all)

module _ {A : Type 0} where
  close-all : (n : ℕ) (a : A) (src : Bytes) → close n (ok (a, [])) src ≡ ok (a, src)
  unfolding close
  close-all n a src = ground arith

  -- A value is read back through a section reader if it is read back without one, and is not too long.
  pub in_section-Restores :
      {w : Written} {d : Reader A} {a : A}
      → Restores w d a
      → IsShort w
      → Restores (counted w) (in_section d) a
  unfolding counted in_section section_reader_new
  in_section-Restores {d} {a} r short =
      let whole : d r.bytes ≡ ok (a, []) =
        subst (λ bs. d bs ≡ ok (a, [])) (append-nil r.bytes) (r.reads []) in
      let buf =
        buffer-Restores entries_buffer_length r.bytes (omega arith) (short r.bytes r.written) in
      rw r.written (
        Restores-map _ (Restores-map _ buf (λ rest. refl))
          (λ rest. rw whole (close-all (length r.bytes) a rest)))

module _ {A : Type 0} where
  -- An error on what was read ahead is the error of the whole.
  pub in_section_refused :
      (d : Reader A) (ks : Bytes) {e : Error}
      → d ks ≡ err e
      → length ks < 2 ^ 32
      → (bs : Bytes) × (counted (ok ks) ≡ ok bs)
        × ((rest : Bytes) → in_section d (bs ++ rest) ≡ err e)
  unfolding counted in_section section_reader_new close
  in_section_refused d ks failed short =
      let buf = buffer-Restores entries_buffer_length ks (omega arith) short in
      (buf.bytes, buf.written, λ rest. rw (buf.reads rest, failed) refl)

module _ {A : Type 0} where
  pub entries-Restores :
      (s : A → Written) (d : Reader A) (xs : List A)
      → length xs < 2 ^ 32
      → All (λ x. Restores (s x) d x) xs
      → IsShort (CountedList.serialize s (length xs) xs)
      → Restores (counted (CountedList.serialize s (length xs) xs)) (read_entries d) xs
  unfolding read_entries
  entries-Restores s d xs h hs short =
      in_section-Restores (CountedList.CountedList-Restores d s xs h hs) short

pub read_ahead-IsTotal : (size : ℕ) → 0 < size → IsTotal (read_ahead size)
unfolding read_ahead
read_ahead-IsTotal size h =
    IsTotal-bind _ _ VarUint32.VarUint32-IsTotal (λ len. buffered_read-IsTotal size len h)

section_reader-IsTotal : IsTotal section_reader_new
unfolding section_reader_new
section_reader-IsTotal =
    IsTotal-bind _ _ (read_ahead-IsTotal entries_buffer_length (omega arith))
      (λ buf. IsTotal-pure _)

module _ {A : Type 0} where
  close-Ends :
      (n k : ℕ) (o : Outcome Error (A × Bytes)) (src : Bytes)
      → Ends 0 k o
      → Ends 0 (length src) (close n o src)
  unfolding close
  close-Ends n k (ok (a, left)) src (returned h) = Ends-if _ (refused refl) (returned (omega arith))
  close-Ends n k (err e) src (refused h) = refused h
  close-Ends n k panic src h = elim h [ ]
  close-Ends n k out_of_fuel src h = elim h [ ]

  -- A reader that is total on what was read ahead is total.
  pub in_section-IsTotal : (d : Reader A) → IsTotal d → IsTotal (in_section d)
  unfolding in_section
  in_section-IsTotal d h = IsTotal-bind _ _ section_reader-IsTotal (λ r. record {
    at = λ src. close-Ends r.declared_length (length r.cursor) (d r.cursor) src (h.at r.cursor);
  })

module _ {A : Type 0} where
  pub entries-IsTotal : (d : Reader A) → IsTotal d → IsTotal (read_entries d)
  unfolding read_entries
  entries-IsTotal d h = in_section-IsTotal _ (CountedList.CountedList-IsTotal d h)
