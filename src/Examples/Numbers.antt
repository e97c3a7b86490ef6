-- ===== src/Examples/Numbers.antt =====
-- The numbers of src/elements/primitives.rs.
use parity_wasm.Base.{◌≤◌, ◌≡◌, ◌↔◌, refl, [], ◌∷◌, ok, err, length, arith, lt_wf, Bool-cases}
use parity_wasm.Base.Int.{negsuc, IsSigned, signed}
use parity_wasm.Elements.Error.{eof, invalid_var_uint32, invalid_var_int32}
use parity_wasm.Elements.Codec.{Bytes, Restores}
use parity_wasm.Elements.Primitives.Unsigned.{leading_zeros, read_unsigned, write_unsigned}
use parity_wasm.Elements.Primitives.Unsigned.Format.{IsLeb, leb_value}
use parity_wasm.Elements.Primitives.Unsigned.Read as Unsigned
use parity_wasm.Elements.Primitives.Signed.{read_signed, write_signed, smaller_wf}
use parity_wasm.Elements.Primitives.Signed.Format.{sleb_value}
use parity_wasm.Elements.Primitives.Signed.Read as Signed
use parity_wasm.Elements.Primitives.VarUint32
use parity_wasm.Elements.Primitives.VarUint64
use parity_wasm.Elements.Primitives.VarInt32
use parity_wasm.Elements.Primitives.VarInt64
use parity_wasm.Elements.Primitives.VarInt7
use native.Mathlib.Decide.{dec_lt}

-- The tests `varuint32_0` and on of the source.
u32_300 : VarUint32.serialize 300 ≡ ok (0xac ∷ 0x02 ∷ [])
unfolding VarUint32.serialize write_unsigned lt_wf dec_lt
u32_300 = refl

u32_padded : VarUint32.deserialize (0x80 ∷ 0x80 ∷ 0x00 ∷ 7 ∷ []) ≡ ok (0, 7 ∷ [])
unfolding VarUint32.deserialize read_unsigned
u32_padded = refl

-- A fifth byte with a bit past the width is refused with the error of the signed type.
u32_too_wide : VarUint32.deserialize (0xff ∷ 0xff ∷ 0xff ∷ 0xff ∷ 0x1f ∷ []) ≡ err invalid_var_int32
unfolding VarUint32.deserialize read_unsigned leading_zeros
u32_too_wide = refl

u32_too_long :
    VarUint32.deserialize (0x80 ∷ 0x80 ∷ 0x80 ∷ 0x80 ∷ 0x80 ∷ 0 ∷ []) ≡ err invalid_var_uint32
unfolding VarUint32.deserialize read_unsigned
u32_too_long = refl

u32_cut : VarUint32.deserialize (0x80 ∷ []) ≡ err eof
unfolding VarUint32.deserialize read_unsigned
u32_cut = refl

i32_minus_624485 : VarInt32.serialize (negsuc 624484) ≡ ok (0x9b ∷ 0xf1 ∷ 0x59 ∷ [])
unfolding VarInt32.serialize write_signed smaller_wf Bool-cases
i32_minus_624485 = refl

i32_back : VarInt32.deserialize (0x9b ∷ 0xf1 ∷ 0x59 ∷ []) ≡ ok (negsuc 624484, [])
unfolding VarInt32.deserialize read_signed signed
i32_back = refl

deserialize_u32_iff_example :
    (VarUint32.deserialize (0x80 ∷ 0x80 ∷ 0x00 ∷ 7 ∷ []) ≡ ok (0, 7 ∷ []))
    ↔ Unsigned.Begins 5 32 (0x80 ∷ 0x80 ∷ 0x00 ∷ 7 ∷ []) 0 (7 ∷ [])
deserialize_u32_iff_example =
    VarUint32.deserialize_u32_iff (0x80 ∷ 0x80 ∷ 0x00 ∷ 7 ∷ []) 0 (7 ∷ []) (omega arith)

serialize_u32_shortest_example :
    (bs : Bytes) × (VarUint32.serialize 300 ≡ ok bs)
    × IsLeb bs
    × (leb_value bs ≡ 300)
    × (1 ≤ length bs)
    × (length bs ≤ 5)
    × ((p : Bytes) → IsLeb p → leb_value p ≡ 300 → length bs ≤ length p)
serialize_u32_shortest_example = VarUint32.serialize_u32_shortest 300 (omega arith)

deserialize_u64_iff_example :
    (VarUint64.deserialize (0xac ∷ 0x02 ∷ []) ≡ ok (300, []))
    ↔ Unsigned.Begins 10 64 (0xac ∷ 0x02 ∷ []) 300 []
deserialize_u64_iff_example = VarUint64.deserialize_u64_iff (0xac ∷ 0x02 ∷ []) 300 [] (omega arith)

deserialize_i32_iff_example :
    (VarInt32.deserialize (0x9b ∷ 0xf1 ∷ 0x59 ∷ []) ≡ ok (negsuc 624484, []))
    ↔ Signed.Begins 5 32 (0x9b ∷ 0xf1 ∷ 0x59 ∷ []) (negsuc 624484) []
deserialize_i32_iff_example =
    VarInt32.deserialize_i32_iff (0x9b ∷ 0xf1 ∷ 0x59 ∷ []) (negsuc 624484) [] (omega arith)

serialize_i32_shortest_example :
    (bs : Bytes) × (VarInt32.serialize (negsuc 64) ≡ ok bs)
    × IsLeb bs
    × (sleb_value bs ≡ negsuc 64)
    × (1 ≤ length bs)
    × (length bs ≤ 5)
    × ((p : Bytes) → IsLeb p → sleb_value p ≡ negsuc 64 → length bs ≤ length p)
serialize_i32_shortest_example = VarInt32.serialize_i32_shortest (negsuc 64) (omega arith)

deserialize_i64_iff_example :
    (VarInt64.deserialize (0x7f ∷ []) ≡ ok (negsuc 0, []))
    ↔ Signed.Begins 10 64 (0x7f ∷ []) (negsuc 0) []
deserialize_i64_iff_example = VarInt64.deserialize_i64_iff (0x7f ∷ []) (negsuc 0) [] (omega arith)

VarInt7-Restores_iff_example :
    Restores (VarInt7.serialize (negsuc 63)) VarInt7.deserialize (negsuc 63)
    ↔ IsSigned 7 (negsuc 63)
VarInt7-Restores_iff_example = VarInt7.VarInt7-Restores_iff (negsuc 63) (omega arith)
