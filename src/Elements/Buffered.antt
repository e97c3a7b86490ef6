-- ===== src/Elements/Buffered.antt =====
-- src/elements/mod.rs: `buffered_read!`.
use parity_wasm.Base.{
  ℕ, zero, suc, ◌+◌, ◌-◌, ◌≤◌, ◌<◌, ◌≡◌, ◌∙◌, ap, sym, [], ◌∷◌, ◌++◌, append-nil, append_assoc, ok,
  err, out_of_fuel, ltb, if◌then◌else◌, Bool-cases, inl, inr, ltb→lt, lt→ltb, le→ltb, length, take,
  drop, arith, length-drop, drop-drop, suc-add, false,
}
use parity_wasm.Elements.Error.{eof}
use parity_wasm.Elements.Codec.{Bytes, Reader, read, read_short, read_enough, ◌>>=◌}
use native.Mathlib.Decide.{dec_lt}
use parity_wasm.Elements.Total.{IsTotal, read-IsTotal}

-- The loop of `buffered_read!` over `total_read` and `vec_buf`, with fuel.
buffered_loop : ℕ → ℕ → ℕ → ℕ → Bytes → Reader Bytes
buffered_loop zero buffer_size len total_read vec_buf src =
    if ltb total_read len then out_of_fuel else ok (vec_buf, src)
buffered_loop (suc fuel) buffer_size len total_read vec_buf src =
    let left = len - total_read in
    let next_to_read = if ltb buffer_size left then buffer_size else left in
    let more : Reader Bytes = (do
      buf ← read next_to_read
      buffered_loop fuel buffer_size len (total_read + next_to_read) (vec_buf ++ buf)) in
    if ltb total_read len then more src else ok (vec_buf, src)

-- Each round reads a byte at least, so that `len` rounds are enough.
unfoldable pub buffered_read : ℕ → ℕ → Reader Bytes
unfolding buffered_loop
buffered_read buffer_size len = buffered_loop len buffer_size len 0 []

take-add :
    (n m : ℕ) (xs : Bytes) → n ≤ length xs → take (n + m) xs ≡ take n xs ++ take m (drop n xs)
take-add zero m xs h = ap (λ k. take k xs) (omega arith)
take-add (suc n) m [] h = absurd (omega arith)
take-add (suc n) m (x ∷ xs) h = rw (suc-add n m, take-add n m xs (omega arith))

-- The next `k` bytes in one read, behind those of `buf`.
abbrev at_once : Bytes → ℕ → Reader Bytes
at_once buf k src = if ltb (length src) k then err eof else ok (buf ++ take k src, drop k src)

at_once_nothing : (buf src : Bytes) (k : ℕ) → k ≡ 0 → at_once buf k src ≡ ok (buf, src)
at_once_nothing buf src k h = rw (h, le→ltb (length src) 0 (omega arith), append-nil)

at_once_short : (buf src : Bytes) (k : ℕ) → length src < k → at_once buf k src ≡ err eof
at_once_short buf src k h = rw (lt→ltb (length src) k h)

at_once_split :
    (buf src : Bytes) (n k : ℕ)
    → n ≤ length src
    → at_once (buf ++ take n src) k (drop n src) ≡ at_once buf (n + k) src
at_once_split buf src n k h = elim (Bool-cases (ltb (length (drop n src)) k)) [
  | inl short ↦
      let over = ltb→lt _ _ short in
      rw (short, lt→ltb (length src) (n + k) (omega (arith, over, length-drop n src)))
  | inr full ↦
      let all : (ltb (length src) (n + k)) ≡ false = ground (arith, length-drop n src) in
      rw (full, all, take-add n k src h, drop-drop, append_assoc)
]

buffered_loop_lem :
    (fuel size len total : ℕ) (buf src : Bytes)
    → 0 < size
    → total ≤ len
    → len - total ≤ fuel
    → buffered_loop fuel size len total buf src ≡ at_once buf (len - total) src
unfolding buffered_loop
buffered_loop_lem zero size len total buf src hz h k =
    rw (le→ltb total len (omega arith), at_once_nothing buf src (len - total) (omega arith))
buffered_loop_lem (suc fuel) size len total buf src hz h k = elim (dec_lt total len) [
  | no done ↦
      rw (le→ltb total len (omega arith), at_once_nothing buf src (len - total) (omega arith))
  | yes more ↦
      let n : ℕ = if ltb size (len - total) then size else len - total in
      let some_bytes : (1 ≤ n) × (n ≤ len - total) = ground arith in
      elim (dec_lt (length src) n) [
        | yes short ↦ rw (
          lt→ltb total len more,
          read_short n src short,
          at_once_short buf src (len - total) (omega arith),
        )
        | no enough ↦
            let rest : len - total ≡ n + (len - (total + n)) = omega arith in
            let ih =
              buffered_loop_lem fuel size len (total + n) (buf ++ take n src) (drop n src) hz
                (omega arith) (omega arith) in
            rw (lt→ltb total len more, read_enough n src (omega arith))
              (ih
                ∙ at_once_split buf src n (len - (total + n)) (omega arith)
                ∙ ap (λ k. at_once buf k src) (sym rest))
      ]
]

-- Reading piece by piece is reading at once: for every length and every buffer of some bytes, the
-- loop ends, with the bytes that one read of the length would give, or with its error.
pub buffered_read-eq-read :
    (size len : ℕ) (src : Bytes) → 0 < size → buffered_read size len src ≡ read len src
unfolding buffered_read read
buffered_read-eq-read size len src h =
    buffered_loop_lem len size len 0 [] src h (omega arith) (omega arith)
    ∙ ap (λ k. at_once [] k src) (omega arith)

pub buffered_read-IsTotal : (size len : ℕ) → 0 < size → IsTotal (buffered_read size len)
buffered_read-IsTotal size len h = record {
  at = λ src. rw (buffered_read-eq-read size len src h) ((read-IsTotal len).at src);
}
