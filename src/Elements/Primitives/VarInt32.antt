-- ===== src/Elements/Primitives/VarInt32.antt =====
-- src/elements/primitives.rs: `VarInt32`, a signed number of 32 bits in one to five bytes.
use parity_wasm.Base.{
  ℕ, ◌-◌, ◌*◌, ◌%◌, ◌^◌, ◌≤◌, ◌<◌, ◌≡◌, ◌∙◌, ◌↔◌, refl, ap, sym, bit_or, Bool, ok, ltb,
  if◌then◌else◌, length, All, arith, ◌++◌, suc,
}
use parity_wasm.Base.Bits.{agree_tests, holds_below}
use parity_wasm.Base.Int.{ℤ, magnitude, IsSigned, word, signed, signed-word}
use parity_wasm.Elements.Error.{invalid_var_int32}
use parity_wasm.Elements.Codec.{Bytes, IsByte, Reader, ◌>>=◌, after-eq-ok, pure, Written, Restores}
use parity_wasm.Elements.Primitives.Unsigned.{leading_zeros}
use parity_wasm.Elements.Primitives.Unsigned.Format.{IsLeb}
use parity_wasm.Elements.Primitives.Signed.{sign_bit, read_signed, write_signed, smaller_wf}
use parity_wasm.Elements.Primitives.Signed.Format.{
  extend, sleb_value, sencoding, sencoding-IsLeb, length-sencoding, sleb_value-sencoding,
  sencoding-shortest,
}
use parity_wasm.Elements.Primitives.Signed.Read.{Begins, read_signed-Begins, read_signed-eq-ok}
use parity_wasm.Elements.Primitives.Signed.Write.{write-sencoding}
use parity_wasm.Elements.Total.{IsTotal, IsTotal-bind, IsTotal-pure}
use parity_wasm.Elements.Primitives.Signed.Total.{read_signed-Ends}

-- -2 ^ 31 up to 2 ^ 31 - 1
abbrev pub IsI32 : ℤ → Type 0
IsI32 = IsSigned 32

-- Whether the last byte of a full word has bits that the word does not hold.
refuses : ℕ → Bool
refuses b =
    if sign_bit b then ltb (leading_zeros (255 - bit_or b 0x80)) 5 else ltb (leading_zeros b) 5

-- The loop, from no bits read.
read_32 : Reader ℕ
unfolding refuses
read_32 = read_signed 32 invalid_var_int32 refuses invalid_var_int32 0 0

unfoldable pub deserialize : Reader ℤ
unfolding read_32
deserialize = do w ← read_32; pure (signed 32 w)

unfoldable pub serialize : ℤ → Written
serialize v = ok (write_signed v (smaller_wf v))

narrow : (b : ℕ) → b < 128 → refuses b ≡ ltb (2 ^ 4) (suc (magnitude (extend b)) * 2)
unfolding refuses leading_zeros holds_below
narrow = agree_tests refuses (λ b. ltb (2 ^ 4) (suc (magnitude (extend b)) * 2)) 128 refl

wraps : (b : ℕ) → b < 128 → IsSigned 4 (extend b) → b % 2 ^ 4 ≡ word 4 (extend b)
wraps b h fits = ground arith

-- Of bytes, `deserialize` succeeds exactly where the input begins with a signed LEB128 encoding,
-- padded or not, of at most five bytes and of an integer of 32 bits; it returns that integer, and
-- what follows.
pub deserialize_i32_iff :
    (src : Bytes) (v : ℤ) (rest : Bytes)
    → All IsByte src
    → (deserialize src ≡ ok (v, rest)) ↔ Begins 5 32 src v rest
unfolding deserialize
deserialize_i32_iff src v rest hs = (sound, complete)
  where
    complete : Begins 5 32 src v rest → deserialize src ≡ ok (v, rest)
    complete begins =
        let (_, _, _, _, _, fits) = begins in
        let read =
          read_signed-Begins 32 4 4 invalid_var_int32 refuses invalid_var_int32 refl (omega arith)
            (omega arith) narrow wraps src v rest begins in
        rw (read, signed-word 32 v fits)

    sound : deserialize src ≡ ok (v, rest) → Begins 5 32 src v rest
    sound e =
        let (w, left, read, same) = after-eq-ok (read_32 src) (λ w. pure (signed 32 w)) e in
        let (z, at_word, begins) =
          read_signed-eq-ok 32 4 4 invalid_var_int32 refuses invalid_var_int32 refl (omega arith)
            (omega arith) narrow wraps src w left hs read in
        let (_, _, _, _, _, fits) = begins in
        let value : z ≡ v = sym (signed-word 32 z fits) ∙ ap (signed 32) (sym at_word) ∙ cc same in
        let rest' : left ≡ rest = cc same in rw (← value, ← rest') begins

-- `serialize` of an integer of 32 bits writes a signed LEB128 encoding of it in one to five bytes,
-- and no encoding of the integer is shorter.
pub serialize_i32_shortest :
    (v : ℤ)
    → IsI32 v
    → (bs : Bytes) × (serialize v ≡ ok bs)
      × IsLeb bs
      × (sleb_value bs ≡ v)
      × (1 ≤ length bs)
      × (length bs ≤ 5)
      × ((p : Bytes) → IsLeb p → sleb_value p ≡ v → length bs ≤ length p)
unfolding serialize
serialize_i32_shortest v h =
    let (lo, hi) = length-sencoding 4 v in
    (
      sencoding 4 v,
      ap ok (write-sencoding 4 v (omega arith)),
      sencoding-IsLeb 4 v,
      sleb_value-sencoding 4 v (omega arith),
      lo,
      hi,
      λ p l e. rw (← e) (sencoding-shortest 4 l),
    )

-- `deserialize` reads back every integer of 32 bits that `serialize` wrote, whatever follows it.
pub serialize_i32-Restores : (v : ℤ) → IsI32 v → Restores (serialize v) deserialize v
unfolding deserialize
serialize_i32-Restores v h =
    let (bs, e, l, value, lo, hi, _) = serialize_i32_shortest v h in
    record {
      bytes = bs;
      written = e;
      reads = λ rest.
          let read =
            read_signed-Begins 32 4 4 invalid_var_int32 refuses invalid_var_int32 refl (omega arith)
              (omega arith) narrow wraps (bs ++ rest) v rest (bs, refl, l, hi, value, h) in
          rw (read, signed-word 32 v h);
    }

pub VarInt32-IsTotal : IsTotal deserialize
unfolding deserialize read_32
VarInt32-IsTotal =
    IsTotal-bind read_32 _ (record { at = λ src. read_signed-Ends _ _ _ _ refl refl src 0 0 })
      (λ w. IsTotal-pure _)
