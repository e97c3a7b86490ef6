-- ===== src/Examples/Data.antt =====
-- Readers, lists, strings and types.
use parity_wasm.Base.{
  List, length, leb, if◌then◌else◌, ℕ, ◌++◌, err, ◌≡◌, ◌≢◌, ◌↔◌, refl, [], ◌∷◌, ok, arith, true,
}
use parity_wasm.Io.{cursor_new, unexpected_eof, trailing_data}
use parity_wasm.Elements.Error.{from_io}
use parity_wasm.Elements.Buffer.{deserialize_buffer, deserialize_buffer-Restores}
use parity_wasm.Io.Refines.{read_all, total, parts_of, at_position, reads_lem}
use parity_wasm.Elements.Codec.{Bytes, read, Restores}
use parity_wasm.Elements.Buffered.{buffered_read, buffered_read-eq-read}
use parity_wasm.Elements.Primitives.VarUint32
use parity_wasm.Elements.Primitives.Text
use parity_wasm.Elements.Types.{
  v128, value, BlockType, serialize_block_type, deserialize_block_type,
}
use parity_wasm.Elements.Types.RoundTrip.{BlockType-Restores_iff}

abbrev four : Bytes
four = 7 ∷ 8 ∷ 9 ∷ 10 ∷ []

abbrev requests : List ℕ
requests = 1 ∷ 2 ∷ 2 ∷ []

-- The third request asks for more than is left.
reads_lem_example : read_all requests (cursor_new four) ≡ (
    if leb (total requests) (length four)
    then ok (parts_of requests four, at_position four (total requests))
    else err unexpected_eof)
reads_lem_example = reads_lem requests four

buffered_read-eq-read_example :
    buffered_read 2 3 (7 ∷ 8 ∷ 9 ∷ 10 ∷ []) ≡ read 3 (7 ∷ 8 ∷ 9 ∷ 10 ∷ [])
buffered_read-eq-read_example = buffered_read-eq-read 2 3 (7 ∷ 8 ∷ 9 ∷ 10 ∷ []) (omega arith)

-- "é" in UTF-8, and a byte that begins no character.
utf8 : Text.is_utf8 (0xc3 ∷ 0xa9 ∷ []) ≡ true
unfolding Text.is_utf8
utf8 = refl

BlockType-Restores_iff_example :
    Restores (serialize_block_type (value v128)) deserialize_block_type (value v128)
    ↔ (◌≢◌ {A = BlockType} (value v128) (value v128))
BlockType-Restores_iff_example = BlockType-Restores_iff (value v128)

deserialize_buffer-Restores_example :
    (buf : Bytes) × (VarUint32.serialize 300 ≡ ok buf)
    × (deserialize_buffer VarUint32.deserialize buf ≡ ok 300)
    × ((b : ℕ) (more : Bytes)
        → deserialize_buffer VarUint32.deserialize (buf ++ b ∷ more) ≡ err (from_io trailing_data))
deserialize_buffer-Restores_example =
    deserialize_buffer-Restores (VarUint32.serialize_u32-Restores 300 (omega arith))
