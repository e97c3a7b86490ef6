-- ===== src/Elements/Primitives/ByteOrder.antt =====
-- The crate `byteorder`, which src/elements/primitives.rs calls for fixed-width numbers: a parameter,
-- with what its documentation says of `LittleEndian` as laws.
use parity_wasm.Base.{ℕ, ◌^◌, ◌<◌, ◌≡◌, length, All}
use parity_wasm.Elements.Codec.{Bytes, IsByte}

pub record LittleEndian : Type 0 where
  pub read_u32 : Bytes → ℕ
  pub write_u32 : ℕ → Bytes
  pub read_u64 : Bytes → ℕ
  pub write_u64 : ℕ → Bytes
  pub length-write_u32 : (v : ℕ) → length (write_u32 v) ≡ 4
  pub length-write_u64 : (v : ℕ) → length (write_u64 v) ≡ 8
  pub read_u32-write_u32 : (v : ℕ) → v < 2 ^ 32 → read_u32 (write_u32 v) ≡ v
  pub read_u64-write_u64 : (v : ℕ) → v < 2 ^ 64 → read_u64 (write_u64 v) ≡ v
  pub write_u32-read_u32 :
      (bs : Bytes) → length bs ≡ 4 → All IsByte bs → write_u32 (read_u32 bs) ≡ bs
