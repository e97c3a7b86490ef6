-- ===== src/Elements/Primitives/Text.antt =====
-- src/elements/primitives.rs: `String`. A string is the list of its bytes, which are UTF-8.
use parity_wasm.Base.{
  ℕ, zero, suc, ◌<◌, ◌^◌, ◌≡◌, refl, Bool, true, false, ◌&&◌, [], ◌∷◌, ok, Option, none, some, ltb,
  leb, ◌==◌, if◌then◌else◌, length, arith, ◌++◌, lt→ltb,
}
use parity_wasm.Elements.Error.{non_utf8_string}
use parity_wasm.Elements.Codec.{
  Bytes, Reader, ◌>>=◌, pure, fail, Written, ◌⊹◌, Reads, Restores, Restores-bind, read-Reads,
}
use parity_wasm.Elements.Buffered.{buffered_read, buffered_read-eq-read}
use parity_wasm.Elements.Primitives.VarUint32
use parity_wasm.Elements.Total.{IsTotal, IsTotal-bind, IsTotal-if, IsTotal-pure, IsTotal-fail}
use parity_wasm.Elements.Buffered.{buffered_read-IsTotal}

-- `String::from_utf8` of the standard library, as a test: after its first byte a character has this
-- many bytes more, the first of them within these bounds, the others from 0x80 to 0xbf.
lead : ℕ → Option (ℕ × ℕ × ℕ)
lead b =
    if ltb b 0x80
    then some (0, 0x80, 0xbf)
    else if ltb b 0xc2
    then none
    else if ltb b 0xe0
    then some (1, 0x80, 0xbf)
    else if b == 0xe0
    then some (2, 0xa0, 0xbf)
    else if b == 0xed
    then some (2, 0x80, 0x9f)
    else if ltb b 0xf0
    then some (2, 0x80, 0xbf)
    else if b == 0xf0
    then some (3, 0x90, 0xbf)
    else if ltb b 0xf4
    then some (3, 0x80, 0xbf)
    else if b == 0xf4
    then some (3, 0x80, 0x8f)
    else none

continues : ℕ → ℕ → ℕ → Bytes → Bool
continues zero low high [] = true
continues (suc n) low high [] = false
continues zero low high (b ∷ bs) = elim (lead b) [
  | none ↦ false
  | some (n, low', high') ↦ continues n low' high' bs
]
continues (suc n) low high (b ∷ bs) = leb low b && leb b high && continues n 0x80 0xbf bs

unfoldable pub is_utf8 : Bytes → Bool
unfolding continues lead
is_utf8 bs = continues 0 0x80 0xbf bs

abbrev from_utf8 : Bytes → Reader Bytes
from_utf8 bs = if is_utf8 bs then pure bs else fail non_utf8_string

-- What follows the length.
text_of : ℕ → Reader Bytes
text_of length =
    if ltb 0 length then (do bytes ← buffered_read 1024 length; from_utf8 bytes) else pure []

unfoldable pub deserialize : Reader Bytes
unfolding text_of
deserialize = do length ← VarUint32.deserialize; text_of length

unfoldable pub serialize : Bytes → Written
serialize s = VarUint32.serialize_usize (length s) ⊹ ok s

text_of-Reads : (s : Bytes) → is_utf8 s ≡ true → Reads (text_of (length s)) s s
unfolding text_of
text_of-Reads [] valid rest = refl
text_of-Reads (x ∷ xs) valid rest = rw (
  lt→ltb 0 (suc (length xs)) (omega arith),
  buffered_read-eq-read 1024 (suc (length xs)) (x ∷ (xs ++ rest)) (omega arith),
  read-Reads (x ∷ xs) rest,
  valid,
)

-- Every string, a list of bytes that are UTF-8, of less than 2 ^ 32 bytes is read back, whatever follows it.
pub String-Restores :
    (s : Bytes) → is_utf8 s ≡ true → length s < 2 ^ 32 → Restores (serialize s) deserialize s
unfolding deserialize serialize
String-Restores s valid h =
    Restores-bind _ (VarUint32.serialize_usize-Restores (length s) h)
      (record { bytes = s; written = refl; reads = text_of-Reads s valid })

pub Text-IsTotal : IsTotal deserialize
unfolding deserialize text_of
Text-IsTotal = IsTotal-bind _ _ VarUint32.VarUint32-IsTotal (λ length.
    IsTotal-if _ _ _
      (IsTotal-bind _ _ (buffered_read-IsTotal 1024 length (omega arith))
        (λ bytes. IsTotal-if _ _ _ (IsTotal-pure _) (IsTotal-fail _ refl)))
      (IsTotal-pure _))
