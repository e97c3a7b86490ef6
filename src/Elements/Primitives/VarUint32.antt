-- ===== src/Elements/Primitives/VarUint32.antt =====
-- src/elements/primitives.rs: `VarUint32`, a number of 32 bits in one to five bytes.
use parity_wasm.Base.{
  ℕ, ◌-◌, ◌^◌, ◌≤◌, ◌<◌, ◌≡◌, ◌↔◌, refl, ap, Outcome, ◌>>=◌, ok, panic, ltb, leb, le→leb,
  if◌then◌else◌, length, lt_wf, All, arith, ◌++◌, [], ◌∷◌,
}
use parity_wasm.Elements.Error.{Error, invalid_var_uint32, invalid_var_int32}
use parity_wasm.Elements.Codec.{Bytes, IsByte, Reader, Written, Restores}
use parity_wasm.Elements.Primitives.Unsigned.{leading_zeros, read_unsigned, write_unsigned}
use parity_wasm.Elements.Primitives.Unsigned.Format.{
  IsLeb, last, leb_value, encoding, encoding-IsLeb, length-encoding, leb_value-encoding,
  encoding-shortest,
}
use parity_wasm.Elements.Primitives.Unsigned.Read.{Begins, read_unsigned_iff, read_unsigned-Begins}
use parity_wasm.Elements.Primitives.Unsigned.Write.{write-encoding}
use parity_wasm.Elements.Total.{IsTotal}
use parity_wasm.Elements.Primitives.Unsigned.Total.{read_unsigned-Ends}

abbrev pub IsU32 : ℕ → Type 0
IsU32 v = v < 2 ^ 32

unfoldable pub deserialize : Reader ℕ
deserialize = read_unsigned 32 4 invalid_var_uint32 invalid_var_int32 0 0

unfoldable pub serialize : ℕ → Written
serialize v = ok (write_unsigned v (lt_wf.apply v))

-- `From<usize>` asserts that the number fits.
unfoldable pub from_usize : ℕ → Outcome Error ℕ
from_usize i = if leb i (2 ^ 32 - 1) then ok i else panic

-- `VarUint32::from(i).serialize(writer)` for an `i` of type `usize`.
unfoldable pub serialize_usize : ℕ → Written
unfolding from_usize serialize
serialize_usize i = from_usize i >>= serialize

narrow : (b : ℕ) → b < 128 → ltb (leading_zeros b) 4 ≡ leb (2 ^ 4) b
unfolding leading_zeros
narrow b h = ground arith

-- Of bytes, `deserialize` succeeds exactly where the input begins with a LEB128 encoding, padded or
-- not, of at most five bytes and of a number below 2 ^ 32; it returns that number, and what follows.
pub deserialize_u32_iff :
    (src : Bytes) (v : ℕ) (rest : Bytes)
    → All IsByte src
    → (deserialize src ≡ ok (v, rest)) ↔ Begins 5 32 src v rest
unfolding deserialize
deserialize_u32_iff =
    read_unsigned_iff 32 4 28 4 invalid_var_uint32 invalid_var_int32 refl (omega arith) narrow 4
      refl (omega arith)

-- `serialize` of a number below 2 ^ 32 writes a LEB128 encoding of it in one to five bytes, and no
-- encoding of the number is shorter.
pub serialize_u32_shortest :
    (v : ℕ)
    → IsU32 v
    → (bs : Bytes) × (serialize v ≡ ok bs)
      × IsLeb bs
      × (leb_value bs ≡ v)
      × (1 ≤ length bs)
      × (length bs ≤ 5)
      × ((p : Bytes) → IsLeb p → leb_value p ≡ v → length bs ≤ length p)
unfolding serialize
serialize_u32_shortest v h =
    let (lo, hi) = length-encoding 4 v in
    (
      encoding 4 v,
      ap ok (write-encoding 4 v (omega arith)),
      encoding-IsLeb 4 v,
      leb_value-encoding 4 v (omega arith),
      lo,
      hi,
      λ p l e. encoding-shortest 4 v l e,
    )

-- `deserialize` reads back every number below 2 ^ 32 that `serialize` wrote, whatever follows it.
pub serialize_u32-Restores : (v : ℕ) → IsU32 v → Restores (serialize v) deserialize v
unfolding deserialize
serialize_u32-Restores v h =
    let (bs, e, l, value, lo, hi, _) = serialize_u32_shortest v h in
    record {
      bytes = bs;
      written = e;
      reads = λ rest.
          read_unsigned-Begins 32 4 28 4 invalid_var_uint32 invalid_var_int32 refl (omega arith)
            narrow 4 refl (omega arith) (bs ++ rest) v rest (bs, refl, l, hi, value, h);
    }

pub serialize_usize-Restores : (i : ℕ) → IsU32 i → Restores (serialize_usize i) deserialize i
unfolding serialize_usize
serialize_usize-Restores i h = rw (le→leb i (2 ^ 32 - 1) (omega arith)) (serialize_u32-Restores i h)

-- `VarUint32::from` panics on every `usize` that has more than 32 bits.
pub serialize_usize_panics : (i : ℕ) → 2 ^ 32 ≤ i → serialize_usize i ≡ panic
unfolding serialize_usize
serialize_usize_panics i h = ground arith

-- A byte below 128 stands for itself.
pub one_byte-Restores : (b : ℕ) → b < 128 → Restores (ok (b ∷ [])) deserialize b
unfolding deserialize
one_byte-Restores b h = record {
  bytes = b ∷ [];
  written = refl;
  reads = λ rest.
      read_unsigned-Begins 32 4 28 4 invalid_var_uint32 invalid_var_int32 refl (omega arith) narrow
        4 refl (omega arith) (b ∷ rest) b rest
        (b ∷ [], refl, last h, omega arith, omega arith, omega arith);
}

pub VarUint32-IsTotal : IsTotal deserialize
unfolding deserialize
VarUint32-IsTotal = record { at = λ src. read_unsigned-Ends _ _ _ _ refl refl src 0 0 }
