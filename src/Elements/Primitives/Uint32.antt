-- ===== src/Elements/Primitives/Uint32.antt =====
-- src/elements/primitives.rs: `Uint32`, four bytes in little endian.
use parity_wasm.Base.{ℕ, ◌^◌, ◌<◌, ok}
use parity_wasm.Elements.Codec.{
  Reader, read, ◌>>=◌, pure, Written, Restores, Restores-map, read-Restores,
}
use parity_wasm.Elements.Primitives.ByteOrder.{LittleEndian}
use parity_wasm.Elements.Total.{IsTotal, IsTotal-bind, IsTotal-pure, read-IsTotal}

module _ (le : LittleEndian) where
  open le use {read_u32, write_u32, length-write_u32, read_u32-write_u32}

  unfoldable pub deserialize : Reader ℕ
  deserialize = do buf ← read 4; pure (read_u32 buf)

  unfoldable pub serialize : ℕ → Written
  serialize v = ok (write_u32 v)

  pub Uint32-Restores : (v : ℕ) → v < 2 ^ 32 → Restores (serialize v) deserialize v
  unfolding deserialize serialize
  Uint32-Restores v h =
      Restores-map _ (read-Restores (write_u32 v) 4 (length-write_u32 v))
        (λ rest. rw (read_u32-write_u32 v h))

  pub Uint32-IsTotal : IsTotal deserialize
  unfolding deserialize
  Uint32-IsTotal = IsTotal-bind _ _ (read-IsTotal _) (λ buf. IsTotal-pure _)
