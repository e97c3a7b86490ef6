-- ===== src/Elements/Ops/Blocks/InitExpr.antt =====
-- Initialization expressions are read back by their loop.
use parity_wasm.Base.{
  ℕ, suc, ◌+◌, ◌-◌, ◌≤◌, ◌≡◌, refl, true, false, List, [], ◌∷◌, ◌++◌, append_assoc, append-nil,
  suc-add, subst, ok, length, All, arith, length-append,
}
use parity_wasm.Elements.Codec.{Bytes, Reads, Restores}
use parity_wasm.Elements.Primitives.ByteOrder.{LittleEndian}
use parity_wasm.Elements.Ops.{Instruction, end_op, is_terminal}
use parity_wasm.Elements.Ops.Read as Read
use parity_wasm.Elements.Ops.RoundTrip.{Instruction-Restores}
use parity_wasm.Elements.Ops.RoundTrip.Readable.{IsReadable}
use parity_wasm.Elements.Ops.Blocks.{init_expr_loop, deserialize_init_expr, serialize}
use parity_wasm.Elements.Ops.Blocks.RoundTrip.{nonempty}

abbrev pub IsPlain : Instruction → Type 0
IsPlain i = is_terminal i ≡ false

module _ (le : LittleEndian) where
  last_read :
      (fuel : ℕ) (i : Instruction) (bs : Bytes)
      → Reads (Read.deserialize le) bs i
      → is_terminal i ≡ true
      → Reads (init_expr_loop le (suc fuel)) bs (i ∷ [])
  unfolding init_expr_loop
  last_read fuel i bs r e rest = rw (r rest, e) refl

  inner_read :
      (fuel : ℕ) (i : Instruction) (is : List Instruction) (bs cs : Bytes)
      → Reads (Read.deserialize le) bs i
      → is_terminal i ≡ false
      → Reads (init_expr_loop le fuel) cs is
      → Reads (init_expr_loop le (suc fuel)) (bs ++ cs) (i ∷ is)
  unfolding init_expr_loop
  inner_read fuel i is bs cs r e q rest = rw (append_assoc, r (cs ++ rest), e, q rest) refl

  expr-Reads :
      (is : List Instruction)
      → All IsPlain is
      → All IsReadable (is ++ end_op ∷ [])
      → (bs : Bytes) × (serialize le (is ++ end_op ∷ []) ≡ ok bs)
        × (length (is ++ end_op ∷ []) ≤ length bs)
        × ((fuel : ℕ)
            → Reads (init_expr_loop le (length (is ++ end_op ∷ []) + fuel)) bs (is ++ end_op ∷ []))
  unfolding serialize is_terminal
  expr-Reads [] p (h, _) =
      let r = Instruction-Restores le end_op h in
      let some_bytes = nonempty le end_op r.bytes r.reads in
      (
        r.bytes,
        rw (r.written, append-nil) refl,
        omega (arith, some_bytes),
        λ fuel. rw (suc-add 0 fuel) (last_read (0 + fuel) end_op r.bytes r.reads refl),
      )
  expr-Reads (i ∷ is) (p, ps) (h, hs) =
      let r = Instruction-Restores le i h in
      let (bs, w, len, reads) = expr-Reads is ps hs in
      let some_bytes = nonempty le i r.bytes r.reads in
      let count = length (is ++ end_op ∷ []) in
      (
        r.bytes ++ bs,
        rw (r.written, w) refl,
        omega (arith, length-append r.bytes bs, some_bytes, len),
        λ fuel.
            rw (suc-add count fuel)
              (inner_read (count + fuel) i (is ++ end_op ∷ []) r.bytes bs r.reads p (reads fuel)),
      )

  -- Instructions that are readable and not `End`, and an `End` after them, are read back by
  -- `InitExpr::deserialize`, whatever follows them.
  pub InitExpr-Restores :
      (is : List Instruction)
      → All IsPlain is
      → All IsReadable (is ++ end_op ∷ [])
      → Restores (serialize le (is ++ end_op ∷ [])) (deserialize_init_expr le) (is ++ end_op ∷ [])
  unfolding deserialize_init_expr
  InitExpr-Restores is ps hs =
      let all = is ++ end_op ∷ [] in
      let (bs, w, len, reads) = expr-Reads is ps hs in
      record {
        bytes = bs;
        written = w;
        reads = λ rest.
            let spare = suc (length (bs ++ rest)) - length all in
            let enough : length all + spare ≡ suc (length (bs ++ rest)) =
              omega (arith, len, length-append bs rest) in
            subst (λ f. init_expr_loop le f (bs ++ rest) ≡ ok (all, rest)) enough
              (reads spare rest);
      }
