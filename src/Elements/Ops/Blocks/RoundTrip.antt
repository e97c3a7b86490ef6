-- ===== src/Elements/Ops/Blocks/RoundTrip.antt =====
-- Lists of instructions, nested as the format has it, are read back by their loops.
use parity_wasm.Base.{
  ℕ, suc, ◌+◌, ◌-◌, ◌≤◌, ◌<◌, ◌^◌, ◌≡◌, refl, ap, true, false, some, List, [], ◌∷◌, ◌++◌,
  append_assoc, append-nil, suc-add, subst, ok, length, All, arith, lt→ltb, length-append, ◌==◌,
}
use parity_wasm.Elements.Codec.{Bytes, Reads, Restores}
use parity_wasm.Elements.Primitives.ByteOrder.{LittleEndian}
use parity_wasm.Elements.Primitives.Uint8
use parity_wasm.Elements.Ops.{Instruction, end_op, is_block, is_terminal}
use parity_wasm.Elements.Ops.Read as Read
use parity_wasm.Elements.Ops.RoundTrip.{Instruction-Restores}
use parity_wasm.Elements.Ops.RoundTrip.Readable.{IsReadable}
use parity_wasm.Elements.Ops.Blocks.{
  next_count, instructions_loop, deserialize_instructions, serialize,
}

-- The format: instructions in sequence, of which one that starts a block has after it another sequence
-- and an `End`.
pub data IsSequence : List Instruction → Type 0 where
  nothing : IsSequence []
  plain :
      {i : Instruction} {is : List Instruction}
      → is_block i ≡ false
      → is_terminal i ≡ false
      → IsSequence is
      → IsSequence (i ∷ is)
  nested :
      {i : Instruction} {body is : List Instruction}
      → is_block i ≡ true
      → is_terminal i ≡ false
      → IsSequence body
      → IsSequence is
      → IsSequence (i ∷ (body ++ end_op ∷ is))

-- The lists that the loop reads to their end.
data Closes : ℕ → List Instruction → Type 0 where
  stop : {n : ℕ} {i : Instruction} → next_count n i ≡ some 0 → Closes n (i ∷ [])
  step :
      {n k : ℕ} {i : Instruction} {is : List Instruction}
      → next_count n i ≡ some (suc k)
      → Closes (suc k) is
      → Closes n (i ∷ is)

-- A sequence leaves the count as it was.
Closes-sequence :
    {is : List Instruction} (k : ℕ) (js : List Instruction)
    → IsSequence is
    → suc k + length (is ++ js) < 2 ^ 64
    → Closes (suc k) js
    → Closes (suc k) (is ++ js)
unfolding next_count
Closes-sequence k js nothing h c = c
Closes-sequence k js (plain b t s) h c =
    step (rw (t, b) refl) (Closes-sequence k js s (omega (arith, h)) c)
Closes-sequence k js (nested {i} {body} {is} b t s s') h c =
    let assoc : (body ++ end_op ∷ is) ++ js ≡ body ++ end_op ∷ (is ++ js) =
      append_assoc body (end_op ∷ is) js in
    let lengths = length-append body (end_op ∷ (is ++ js)) in
    let inner : Closes (suc k) (is ++ js) =
      Closes-sequence k js s' (omega (arith, h, ap length assoc, lengths)) c in
    let closed : Closes (suc (suc k)) (end_op ∷ (is ++ js)) = step (ground arith) inner in
    let whole : Closes (suc (suc k)) (body ++ end_op ∷ (is ++ js)) =
      Closes-sequence (suc k) (end_op ∷ (is ++ js)) s (omega (arith, h, ap length assoc, lengths))
        closed in
    let more = lt→ltb (suc k + 1) (2 ^ 64) (omega (arith, h)) in
    rw assoc (step {k = suc k} (rw (t, b, more) (ground arith)) whole)

positive : (k : ℕ) → (suc k == 0) ≡ false
positive k = ground arith

ends : (k : ℕ) → next_count k end_op ≡ some (k - 1)
unfolding next_count
ends k = refl

module _ (le : LittleEndian) where
  -- Something is written for every instruction.
  pub nonempty : (i : Instruction) (bs : Bytes) → Reads (Read.deserialize le) bs i → 0 < length bs
  unfolding Read.deserialize Uint8.deserialize
  nonempty i [] r = cc (r [])
  nonempty i (b ∷ bs) r = omega arith

  last_round :
      (fuel n : ℕ) (i : Instruction) (bs : Bytes)
      → Reads (Read.deserialize le) bs i
      → next_count n i ≡ some 0
      → Reads (instructions_loop le (suc fuel) n) bs (i ∷ [])
  unfolding instructions_loop
  last_round fuel n i bs r e rest = rw (r rest, e) refl

  inner_round :
      (fuel n k : ℕ) (i : Instruction) (is : List Instruction) (bs cs : Bytes)
      → Reads (Read.deserialize le) bs i
      → next_count n i ≡ some (suc k)
      → Reads (instructions_loop le fuel (suc k)) cs is
      → Reads (instructions_loop le (suc fuel) n) (bs ++ cs) (i ∷ is)
  unfolding instructions_loop
  inner_round fuel n k i is bs cs r e q rest =
      rw (append_assoc, r (cs ++ rest), e, positive k, q rest) refl

  loop-Reads :
      (n : ℕ) (is : List Instruction)
      → Closes n is
      → All IsReadable is
      → (bs : Bytes) × (serialize le is ≡ ok bs)
        × (length is ≤ length bs)
        × ((fuel : ℕ) → Reads (instructions_loop le (length is + fuel) n) bs is)
  unfolding serialize
  loop-Reads n [] c h = elim c [ ]
  loop-Reads n (i ∷ []) (stop e) (h, _) =
      let r = Instruction-Restores le i h in
      let some_bytes = nonempty i r.bytes r.reads in
      (
        r.bytes,
        rw (r.written, append-nil) refl,
        omega (arith, some_bytes),
        λ fuel. rw (suc-add 0 fuel) (last_round (0 + fuel) n i r.bytes r.reads e),
      )
  loop-Reads n (i ∷ is) (step {k} e c) (h, hs) =
      let r = Instruction-Restores le i h in
      let (bs, w, len, reads) = loop-Reads (suc k) is c hs in
      let some_bytes = nonempty i r.bytes r.reads in
      (
        r.bytes ++ bs,
        rw (r.written, w) refl,
        omega (arith, length-append r.bytes bs, some_bytes, len),
        λ fuel.
            rw (suc-add (length is) fuel)
              (inner_round (length is + fuel) n k i is r.bytes bs r.reads e (reads fuel)),
      )

  -- A sequence and its `End`, in which every instruction is readable, is read back by
  -- `Instructions::deserialize`, whatever follows it: it has less than 2 ^ 64 - 2 instructions.
  pub Instructions-Restores :
      (is : List Instruction)
      → IsSequence is
      → All IsReadable (is ++ end_op ∷ [])
      → length is + 2 < 2 ^ 64
      → Restores
          (serialize le (is ++ end_op ∷ []))
          (deserialize_instructions le)
          (is ++ end_op ∷ [])
  unfolding deserialize_instructions
  Instructions-Restores is s hs h =
      let all = is ++ end_op ∷ [] in
      let c =
        Closes-sequence 0 (end_op ∷ []) s (omega (arith, h, length-append is (end_op ∷ [])))
          (stop (ends 1)) in
      let (bs, w, len, reads) = loop-Reads 1 all c hs in
      record {
        bytes = bs;
        written = w;
        reads = λ rest.
            let enough : length all + (suc (length (bs ++ rest)) - length all)
                ≡ suc (length (bs ++ rest)) =
              omega (arith, len, length-append bs rest) in
            subst (λ f. instructions_loop le f 1 (bs ++ rest) ≡ ok (all, rest)) enough
              (reads (suc (length (bs ++ rest)) - length all) rest);
      }
