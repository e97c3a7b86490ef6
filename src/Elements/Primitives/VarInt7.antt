-- ===== src/Elements/Primitives/VarInt7.antt =====
-- src/elements/primitives.rs: `VarInt7`, a signed number of seven bits in a byte. The value is an `i8`.
use parity_wasm.Base.{
  ℕ, suc, ◌+◌, ◌-◌, ◌<◌, ◌≡◌, ◌↔◌, refl, subst, ◌++◌, ◌∙◌, bit_and, bit_or, [], ◌∷◌, ok, ◌==◌,
  if◌then◌else◌, arith, not, leb, ltb, ◌%◌,
}
use parity_wasm.Base.Bits.{agree, bit_seven, holds_below}
use parity_wasm.Base.Int.{ℤ, pos, negsuc, IsSigned, word, signed}
use parity_wasm.Elements.Error.{invalid_var_int7}
use parity_wasm.Elements.Codec.{Bytes, Reader, read_u8, ◌>>=◌, pure, fail, Written, Restores}
use parity_wasm.Elements.Total.{
  IsTotal, IsTotal-bind, IsTotal-if, IsTotal-pure, IsTotal-fail, IsTotal-progress,
  read_u8-IsProgress,
}

-- The byte with its sign bit copied to bit 7.
expand_sign : ℕ → ℕ
expand_sign b = if bit_and b 0x40 == 0x40 then bit_or b 0x80 else b

unfoldable pub deserialize : Reader ℤ
unfolding expand_sign
deserialize = do
  b ← read_u8
  if not (bit_and b 0x80 == 0) then fail (invalid_var_int7 b) else pure (signed 8 (expand_sign b))

-- The byte of an `i8`.
low_byte : ℤ → ℕ
low_byte (pos n) = word 8 (pos n)
low_byte (negsuc n) = bit_and (bit_or (word 8 (negsuc n)) 0x40) 0x7f

unfoldable pub serialize : ℤ → Written
unfolding low_byte
serialize v = ok (low_byte v ∷ [])

expand_sign_lem : (b : ℕ) → b < 128 → expand_sign b ≡ (if leb 64 b then b + 128 else b)
unfolding expand_sign holds_below
expand_sign_lem = agree expand_sign (λ b. if leb 64 b then b + 128 else b) 128 refl

-- What `|= 0x40` and `&= 0x7f` leave of a byte.
masked_lem :
    (w : ℕ)
    → w < 256
    → bit_and (bit_or w 0x40) 0x7f ≡ (if leb 64 (w % 128) then w % 128 else w % 128 + 64)
unfolding holds_below
masked_lem =
    agree (λ w. bit_and (bit_or w 0x40) 0x7f)
      (λ w. if leb 64 (w % 128) then w % 128 else w % 128 + 64) 256 refl

low_byte_negative :
    (n : ℕ) → n < 128 → low_byte (negsuc n) ≡ (if ltb n 64 then 127 - n else 191 - n)
unfolding low_byte
low_byte_negative n h = masked_lem (256 - suc n) (omega arith) ∙ ground arith

low_byte-lt : (v : ℤ) → IsSigned 8 v → low_byte v < 128
low_byte-lt (pos n) h = unfold low_byte in omega arith
low_byte-lt (negsuc n) h = rw (low_byte_negative n (omega arith)) (ground arith)

-- The byte that `serialize` writes reads as this number.
read_back :
    (b : ℕ) (rest : Bytes) → b < 128 → deserialize (b ∷ rest) ≡ ok (signed 8 (expand_sign b), rest)
unfolding deserialize
read_back b rest h = ground (arith, bit_seven b)

-- It is the number that was written if that has seven bits, and only then.
read_back-eq_iff : (v : ℤ) → IsSigned 8 v → (signed 8 (expand_sign (low_byte v)) ≡ v) ↔ IsSigned 7 v
unfolding signed
read_back-eq_iff (pos n) h =
    unfold low_byte in rw (expand_sign_lem n (omega arith)) (ground arith, ground arith)
read_back-eq_iff (negsuc n) h =
    let lt = low_byte-lt (negsuc n) h in
    rw (expand_sign_lem (low_byte (negsuc n)) lt, low_byte_negative n (omega arith))
      (ground arith, ground arith)

-- An `i8` that `serialize` wrote is read back by `deserialize`, whatever follows it, exactly if it is
-- one of -64 to 63.
pub VarInt7-Restores_iff :
    (v : ℤ) → IsSigned 8 v → Restores (serialize v) deserialize v ↔ IsSigned 7 v
unfolding serialize
VarInt7-Restores_iff v h =
    let back = λ (rest : Bytes). read_back (low_byte v) rest (low_byte-lt v h) in
    (
      (λ r.
          let same : r.bytes ≡ low_byte v ∷ [] = cc r.written in
          let reads : deserialize (low_byte v ∷ []) ≡ ok (v, []) =
            subst (λ bs. deserialize (bs ++ []) ≡ ok (v, [])) same (r.reads []) in
          (read_back-eq_iff v h).0 (cc (reads, back []))),
      (λ fits. record {
        bytes = low_byte v ∷ [];
        written = refl;
        reads = λ rest. back rest ∙ rw ((read_back-eq_iff v h).1 fits);
      }),
    )

pub VarInt7-IsTotal : IsTotal deserialize
unfolding deserialize
VarInt7-IsTotal =
    IsTotal-bind _ _ (IsTotal-progress read_u8-IsProgress)
      (λ v. IsTotal-if _ _ _ (IsTotal-fail _ refl) (IsTotal-pure _))
