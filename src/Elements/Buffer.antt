-- ===== src/Elements/Buffer.antt =====
-- src/elements/mod.rs: `Unparsed` and `deserialize_buffer`.
use parity_wasm.Base.{
  ℕ, ◌-◌, ◌<◌, ◌^◌, ◌≡◌, refl, subst, [], ◌∷◌, ◌++◌, append-nil, Outcome, ok, err, panic,
  out_of_fuel, not, ◌==◌, if◌then◌else◌, length, length-append, arith,
}
use parity_wasm.Io.{trailing_data}
use parity_wasm.Elements.Error.{Error, from_io}
use parity_wasm.Elements.Codec.{
  Bytes, Reader, ◌>>=◌, read, Written, ◌⊹◌, Restores, Restores-bind, read-Restores,
}
use parity_wasm.Elements.Primitives.VarUint32

unfoldable pub deserialize_unparsed : Reader Bytes
deserialize_unparsed = do len ← VarUint32.deserialize; read len

module _ {A : Type 0} where
  -- The position is the number of the bytes that were read.
  all_read : Bytes → Outcome Error (A × Bytes) → Outcome Error A
  all_read contents (ok (result, rest)) =
      if not (length contents - length rest == length contents)
      then err (from_io trailing_data)
      else ok result
  all_read contents (err e) = err e
  all_read contents panic = panic
  all_read contents out_of_fuel = out_of_fuel

  unfoldable pub deserialize_buffer : Reader A → Bytes → Outcome Error A
  unfolding all_read
  deserialize_buffer d contents = all_read contents (d contents)

  -- The buffer of a value that is read back whatever follows it holds that value, and with a byte more
  -- it is refused for trailing data.
  pub deserialize_buffer-Restores :
      {w : Written} {d : Reader A} {a : A}
      → Restores w d a
      → (buf : Bytes) × (w ≡ ok buf)
        × (deserialize_buffer d buf ≡ ok a)
        × ((b : ℕ) (more : Bytes)
            → deserialize_buffer d (buf ++ b ∷ more) ≡ err (from_io trailing_data))
  unfolding deserialize_buffer all_read
  deserialize_buffer-Restores {d} {a} r = (
    r.bytes,
    r.written,
    (let whole : d r.bytes ≡ ok (a, []) =
          subst (λ bs. d bs ≡ ok (a, [])) (append-nil r.bytes) (r.reads []) in
        rw whole (ground arith)),
    λ b more. rw (r.reads (b ∷ more)) (ground (arith, length-append r.bytes (b ∷ more))),
  )

-- Bytes of which the length was written before them are read as `Unparsed`, whatever follows them:
-- they are fewer than 2 ^ 32.
pub Unparsed-Restores :
    (bs : Bytes)
    → length bs < 2 ^ 32
    → Restores (VarUint32.serialize_usize (length bs) ⊹ ok bs) deserialize_unparsed bs
unfolding deserialize_unparsed
Unparsed-Restores bs h =
    Restores-bind _ (VarUint32.serialize_usize-Restores (length bs) h)
      (read-Restores bs (length bs) refl)
