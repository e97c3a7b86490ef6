-- ===== src/Elements/Module/Peek/Frames.antt =====
-- `peek_size` finds the end of a header and the sections that follow it.
use parity_wasm.Base.{
  ℕ, zero, suc, ◌+◌, ◌-◌, ◌≤◌, ◌<◌, ◌≡◌, refl, ap, sym, ◌∙◌, true, false, ◌&&◌, ltb, leb, ◌==◌,
  if◌then◌else◌, ok, length, drop, [], ◌∷◌, ◌++◌, append_assoc, append-nil, length-append,
  drop-length_append, arith,
}
use parity_wasm.Elements.Codec.{Bytes, Reads}
use parity_wasm.Elements.Primitives.VarUint7
use parity_wasm.Elements.Primitives.VarUint32
use parity_wasm.Elements.Module.Peek.{advance, peek_len, peek_id, peek_loop, peek_size}

-- Sections one after another: each an id, a length that is read as that of the bytes after it, and
-- those bytes.
pub data IsFramed : Bytes → Type 0 where
  last_frame :
      (id : ℕ) (len payload : Bytes)
      → id ≤ 11
      → 0 < length payload
      → Reads VarUint32.deserialize len (length payload)
      → IsFramed (id ∷ (len ++ payload))
  frame :
      (id : ℕ) (len payload rest : Bytes)
      → id ≤ 11
      → 0 < length payload
      → Reads VarUint32.deserialize len (length payload)
      → 0 < length rest
      → IsFramed rest
      → IsFramed (id ∷ (len ++ (payload ++ rest)))

-- A round of the loop that takes one section.
round_lem :
    (source before len payload rest : Bytes) (fuel id : ℕ)
    → source ≡ before ++ id ∷ (len ++ (payload ++ rest))
    → id ≤ 11
    → 0 < length payload
    → Reads VarUint32.deserialize len (length payload)
    → peek_loop source (suc fuel) (length before) ≡ (
        if length before + (1 + length len) + length payload == length source
        then ok (length before + (1 + length len) + length payload)
        else peek_loop source fuel (length before + (1 + length len) + length payload))
unfolding peek_loop peek_id peek_len advance VarUint7.deserialize
round_lem source before len payload rest fuel id e known some_bytes reads =
    let region : drop (length before) source ≡ id ∷ (len ++ (payload ++ rest)) =
      rw (e, drop-length_append) refl in
    let lengths = length-append len (payload ++ rest) in
    let inner = length-append payload rest in
    let total = ap length e ∙ length-append before (id ∷ (len ++ (payload ++ rest))) in
    let used : length (id ∷ (len ++ (payload ++ rest))) - length (payload ++ rest)
        ≡ 1 + length len =
      omega (arith, length-append len (payload ++ rest)) in
    let tests : (leb id 11 && ltb 0 (length payload)) ≡ true = ground arith in
    let fits : ltb (length source) (length before + (1 + length len) + length payload) ≡ false =
      ground (arith, total, lengths, inner) in
    rw (region, reads (payload ++ rest), region, used, tests, fits) refl

enough : (n m : ℕ) → n < m → (n == m) ≡ false
enough n m h = ground arith

frames_length : {body : Bytes} → IsFramed body → 0 < length body
frames_length (last_frame id len payload known some_bytes reads) = omega arith
frames_length (frame id len payload rest known some_bytes reads more framed) = omega arith

-- The loop from the end of `before`, with a round for every byte that follows.
frames_loop :
    (source before body : Bytes) (fuel : ℕ)
    → source ≡ before ++ body
    → IsFramed body
    → length body ≤ fuel
    → peek_loop source fuel (length before) ≡ ok (length source)
frames_loop source before body zero e (last_frame id len payload known some_bytes reads) h =
    absurd (omega arith)
frames_loop source before body zero e (frame id len payload rest known some_bytes reads more framed)
      h =
    absurd (omega arith)
frames_loop source before body (suc fuel) e (last_frame id len payload known some_bytes reads) h =
    let whole : source ≡ before ++ id ∷ (len ++ (payload ++ [])) = rw append-nil e in
    let total = ap length e ∙ length-append before (id ∷ (len ++ payload)) in
    let lengths = length-append len payload in
    let end : length before + (1 + length len) + length payload ≡ length source =
      omega (arith, total, lengths) in
    rw (round_lem source before len payload [] fuel id whole known some_bytes reads, end)
      (ground arith)
frames_loop source before body (suc fuel) e
      (frame id len payload rest known some_bytes reads more framed) h =
    let next = before ++ id ∷ (len ++ payload) in
    let whole : source ≡ next ++ rest =
      e
      ∙ sym (
          append_assoc before (id ∷ (len ++ payload)) rest
          ∙ ap (λ k. before ++ id ∷ k) (append_assoc len payload rest)) in
    let lengths = length-append len payload in
    let at_next : length before + (1 + length len) + length payload ≡ length next =
      omega (arith, lengths, length-append before (id ∷ (len ++ payload))) in
    let total = ap length whole ∙ length-append next rest in
    rw
      (
        round_lem source before len payload rest fuel id e known some_bytes reads,
        at_next,
        enough (length next) (length source) (omega (arith, total, more)),
      )
      (frames_loop source next rest fuel whole framed
        (omega (arith, h, length-append len (payload ++ rest), length-append payload rest)))

-- `peek_size` of a header of eight bytes and at least one section, of which each has an id of at most
-- 11 and something in it, is the length of it all.
pub peek_size-framed :
    (header body : Bytes)
    → length header ≡ 8
    → IsFramed body
    → peek_size (header ++ body) ≡ ok (length (header ++ body))
unfolding peek_size
peek_size-framed header body eight framed =
    let source = header ++ body in
    let lengths = length-append header body in
    let some_bytes = frames_length framed in
    let long : ltb (length source) 9 ≡ false = ground (arith, lengths) in
    let all = frames_loop source header body (length source) refl framed (omega (arith, lengths)) in
    rw long (rw eight at all)
