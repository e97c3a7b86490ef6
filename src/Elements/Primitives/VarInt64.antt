-- ===== src/Elements/Primitives/VarInt64.antt =====
-- src/elements/primitives.rs: `VarInt64`, a signed number of 64 bits in one to ten bytes.
use parity_wasm.Base.{
  ℕ, ◌*◌, ◌%◌, ◌^◌, ◌≤◌, ◌<◌, ◌≡◌, ◌∙◌, ◌↔◌, refl, ap, sym, bit_or, Bool, not, ok, ltb, ◌==◌,
  if◌then◌else◌, length, All, arith, ◌++◌, suc,
}
use parity_wasm.Base.Bits.{agree_tests, holds_below}
use parity_wasm.Base.Int.{ℤ, magnitude, IsSigned, word, signed, signed-word}
use parity_wasm.Elements.Error.{invalid_var_int64}
use parity_wasm.Elements.Codec.{Bytes, IsByte, Reader, ◌>>=◌, after-eq-ok, pure, Written, Restores}
use parity_wasm.Elements.Primitives.Unsigned.{leading_zeros}
use parity_wasm.Elements.Primitives.Unsigned.Format.{IsLeb}
use parity_wasm.Elements.Primitives.Signed.{sign_bit, read_signed, write_signed, smaller_wf}
use parity_wasm.Elements.Primitives.Signed.Format.{
  extend, sleb_value, sencoding, sencoding-IsLeb, length-sencoding, sleb_value-sencoding,
  sencoding-shortest,
}
use parity_wasm.Elements.Primitives.Signed.Read.{Begins, read_signed-Begins, read_signed-eq-ok}
use parity_wasm.Elements.Primitives.Signed.Write.{write-sencoding}
use parity_wasm.Elements.Total.{IsTotal, IsTotal-bind, IsTotal-pure}
use parity_wasm.Elements.Primitives.Signed.Total.{read_signed-Ends}

-- -2 ^ 63 up to 2 ^ 63 - 1
abbrev pub IsI64 : ℤ → Type 0
IsI64 = IsSigned 64

-- Whether the last byte of a full word has bits that the word does not hold.
refuses : ℕ → Bool
refuses b = if sign_bit b then not (bit_or b 0x80 == 255) else not (b == 0)

-- The loop, from no bits read.
read_64 : Reader ℕ
unfolding refuses
read_64 = read_signed 64 invalid_var_int64 refuses invalid_var_int64 0 0

unfoldable pub deserialize : Reader ℤ
unfolding read_64
deserialize = do w ← read_64; pure (signed 64 w)

unfoldable pub serialize : ℤ → Written
serialize v = ok (write_signed v (smaller_wf v))

narrow : (b : ℕ) → b < 128 → refuses b ≡ ltb (2 ^ 1) (suc (magnitude (extend b)) * 2)
unfolding refuses leading_zeros holds_below
narrow = agree_tests refuses (λ b. ltb (2 ^ 1) (suc (magnitude (extend b)) * 2)) 128 refl

wraps : (b : ℕ) → b < 128 → IsSigned 1 (extend b) → b % 2 ^ 1 ≡ word 1 (extend b)
wraps b h fits = ground arith

-- Of bytes, `deserialize` succeeds exactly where the input begins with a signed LEB128 encoding,
-- padded or not, of at most ten bytes and of an integer of 64 bits; it returns that integer, and
-- what follows.
pub deserialize_i64_iff :
    (src : Bytes) (v : ℤ) (rest : Bytes)
    → All IsByte src
    → (deserialize src ≡ ok (v, rest)) ↔ Begins 10 64 src v rest
unfolding deserialize
deserialize_i64_iff src v rest hs = (sound, complete)
  where
    complete : Begins 10 64 src v rest → deserialize src ≡ ok (v, rest)
    complete begins =
        let (_, _, _, _, _, fits) = begins in
        let read =
          read_signed-Begins 64 9 1 invalid_var_int64 refuses invalid_var_int64 refl (omega arith)
            (omega arith) narrow wraps src v rest begins in
        rw (read, signed-word 64 v fits)

    sound : deserialize src ≡ ok (v, rest) → Begins 10 64 src v rest
    sound e =
        let (w, left, read, same) = after-eq-ok (read_64 src) (λ w. pure (signed 64 w)) e in
        let (z, at_word, begins) =
          read_signed-eq-ok 64 9 1 invalid_var_int64 refuses invalid_var_int64 refl (omega arith)
            (omega arith) narrow wraps src w left hs read in
        let (_, _, _, _, _, fits) = begins in
        let value : z ≡ v = sym (signed-word 64 z fits) ∙ ap (signed 64) (sym at_word) ∙ cc same in
        let rest' : left ≡ rest = cc same in rw (← value, ← rest') begins

-- `serialize` of an integer of 64 bits writes a signed LEB128 encoding of it in one to ten bytes,
-- and no encoding of the integer is shorter.
pub serialize_i64_shortest :
    (v : ℤ)
    → IsI64 v
    → (bs : Bytes) × (serialize v ≡ ok bs)
      × IsLeb bs
      × (sleb_value bs ≡ v)
      × (1 ≤ length bs)
      × (length bs ≤ 10)
      × ((p : Bytes) → IsLeb p → sleb_value p ≡ v → length bs ≤ length p)
unfolding serialize
serialize_i64_shortest v h =
    let (lo, hi) = length-sencoding 9 v in
    (
      sencoding 9 v,
      ap ok (write-sencoding 9 v (omega arith)),
      sencoding-IsLeb 9 v,
      sleb_value-sencoding 9 v (omega arith),
      lo,
      hi,
      λ p l e. rw (← e) (sencoding-shortest 9 l),
    )

-- `deserialize` reads back every integer of 64 bits that `serialize` wrote, whatever follows it.
pub serialize_i64-Restores : (v : ℤ) → IsI64 v → Restores (serialize v) deserialize v
unfolding deserialize
serialize_i64-Restores v h =
    let (bs, e, l, value, lo, hi, _) = serialize_i64_shortest v h in
    record {
      bytes = bs;
      written = e;
      reads = λ rest.
          let read =
            read_signed-Begins 64 9 1 invalid_var_int64 refuses invalid_var_int64 refl (omega arith)
              (omega arith) narrow wraps (bs ++ rest) v rest (bs, refl, l, hi, value, h) in
          rw (read, signed-word 64 v h);
    }

pub VarInt64-IsTotal : IsTotal deserialize
unfolding deserialize read_64
VarInt64-IsTotal =
    IsTotal-bind read_64 _ (record { at = λ src. read_signed-Ends _ _ _ _ refl refl src 0 0 })
      (λ w. IsTotal-pure _)
