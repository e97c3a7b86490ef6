-- ===== src/Elements/Primitives/VarUint64.antt =====
-- src/elements/primitives.rs: `VarUint64`, a number of 64 bits in one to ten bytes.
use parity_wasm.Base.{
  ℕ, ◌^◌, ◌≤◌, ◌<◌, ◌≡◌, ◌↔◌, refl, ap, ok, ltb, leb, length, lt_wf, All, arith, ◌++◌,
}
use parity_wasm.Elements.Error.{invalid_var_uint64, invalid_var_int64}
use parity_wasm.Elements.Codec.{Bytes, IsByte, Reader, Written, Restores}
use parity_wasm.Elements.Primitives.Unsigned.{leading_zeros, read_unsigned, write_unsigned}
use parity_wasm.Elements.Primitives.Unsigned.Format.{
  IsLeb, leb_value, encoding, encoding-IsLeb, length-encoding, leb_value-encoding,
  encoding-shortest,
}
use parity_wasm.Elements.Primitives.Unsigned.Read.{Begins, read_unsigned_iff, read_unsigned-Begins}
use parity_wasm.Elements.Primitives.Unsigned.Write.{write-encoding}
use parity_wasm.Elements.Total.{IsTotal}
use parity_wasm.Elements.Primitives.Unsigned.Total.{read_unsigned-Ends}

abbrev pub IsU64 : ℕ → Type 0
IsU64 v = v < 2 ^ 64

unfoldable pub deserialize : Reader ℕ
deserialize = read_unsigned 64 7 invalid_var_uint64 invalid_var_int64 0 0

unfoldable pub serialize : ℕ → Written
serialize v = ok (write_unsigned v (lt_wf.apply v))

narrow : (b : ℕ) → b < 128 → ltb (leading_zeros b) 7 ≡ leb (2 ^ 1) b
unfolding leading_zeros
narrow b h = ground arith

-- Of bytes, `deserialize` succeeds exactly where the input begins with a LEB128 encoding, padded or
-- not, of at most ten bytes and of a number below 2 ^ 64; it returns that number, and what follows.
pub deserialize_u64_iff :
    (src : Bytes) (v : ℕ) (rest : Bytes)
    → All IsByte src
    → (deserialize src ≡ ok (v, rest)) ↔ Begins 10 64 src v rest
unfolding deserialize
deserialize_u64_iff =
    read_unsigned_iff 64 7 63 1 invalid_var_uint64 invalid_var_int64 refl (omega arith) narrow 9
      refl (omega arith)

-- `serialize` of a number below 2 ^ 64 writes a LEB128 encoding of it in one to ten bytes, and no
-- encoding of the number is shorter.
pub serialize_u64_shortest :
    (v : ℕ)
    → IsU64 v
    → (bs : Bytes) × (serialize v ≡ ok bs)
      × IsLeb bs
      × (leb_value bs ≡ v)
      × (1 ≤ length bs)
      × (length bs ≤ 10)
      × ((p : Bytes) → IsLeb p → leb_value p ≡ v → length bs ≤ length p)
unfolding serialize
serialize_u64_shortest v h =
    let (lo, hi) = length-encoding 9 v in
    (
      encoding 9 v,
      ap ok (write-encoding 9 v (omega arith)),
      encoding-IsLeb 9 v,
      leb_value-encoding 9 v (omega arith),
      lo,
      hi,
      λ p l e. encoding-shortest 9 v l e,
    )

-- `deserialize` reads back every number below 2 ^ 64 that `serialize` wrote, whatever follows it.
pub serialize_u64-Restores : (v : ℕ) → IsU64 v → Restores (serialize v) deserialize v
unfolding deserialize
serialize_u64-Restores v h =
    let (bs, e, l, value, lo, hi, _) = serialize_u64_shortest v h in
    record {
      bytes = bs;
      written = e;
      reads = λ rest.
          read_unsigned-Begins 64 7 63 1 invalid_var_uint64 invalid_var_int64 refl (omega arith)
            narrow 9 refl (omega arith) (bs ++ rest) v rest (bs, refl, l, hi, value, h);
    }

pub VarUint64-IsTotal : IsTotal deserialize
unfolding deserialize
VarUint64-IsTotal = record { at = λ src. read_unsigned-Ends _ _ _ _ refl refl src 0 0 }
