-- ===== src/Elements/Primitives/Uint64.antt =====
-- src/elements/primitives.rs: `Uint64`, eight bytes in little endian.
use parity_wasm.Base.{ℕ, ◌^◌, ◌<◌, ok}
use parity_wasm.Elements.Codec.{
  Reader, read, ◌>>=◌, pure, Written, Restores, Restores-map, read-Restores,
}
use parity_wasm.Elements.Primitives.ByteOrder.{LittleEndian}
use parity_wasm.Elements.Total.{IsTotal, IsTotal-bind, IsTotal-pure, read-IsTotal}

module _ (le : LittleEndian) where
  open le use {read_u64, write_u64, length-write_u64, read_u64-write_u64}

  unfoldable pub deserialize : Reader ℕ
  deserialize = do buf ← read 8; pure (read_u64 buf)

  unfoldable pub serialize : ℕ → Written
  serialize v = ok (write_u64 v)

  pub Uint64-Restores : (v : ℕ) → v < 2 ^ 64 → Restores (serialize v) deserialize v
  unfolding deserialize serialize
  Uint64-Restores v h =
      Restores-map _ (read-Restores (write_u64 v) 8 (length-write_u64 v))
        (λ rest. rw (read_u64-write_u64 v h))

  pub Uint64-IsTotal : IsTotal deserialize
  unfolding deserialize
  Uint64-IsTotal = IsTotal-bind _ _ (read-IsTotal _) (λ buf. IsTotal-pure _)
