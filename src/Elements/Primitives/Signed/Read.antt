-- ===== src/Elements/Primitives/Signed/Read.antt =====
-- The loop of `deserialize` at a word of `bits` bits, in `groups` whole groups of seven and `top` more.
use parity_wasm.Base.{
  ℕ, suc, ◌+◌, ◌-◌, ◌*◌, ◌%◌, ◌^◌, ◌≤◌, ◌<◌, ◌≡◌, ◌∙◌, ap, sym, subst, bit_or, Bool, [], ◌∷◌, ◌++◌,
  ok, err, ltb, leb, length, arith, lt→ltb, le→ltb, leb→le, if◌then◌else◌, Bool-cases, inl, inr,
  All, refl,
}
use parity_wasm.Base.Bits.{pow_pos, agree_tests, holds_below, bit_and_seven, bit_or_disjoint}
use parity_wasm.Base.Int.{ℤ, magnitude, IsSigned, word}
use parity_wasm.Elements.Error.{Error}
use parity_wasm.Elements.Codec.{Bytes, IsByte}
use parity_wasm.Elements.Primitives.Groups.{lt-mul, next_group, group_fits, joined, joined_lem}
use parity_wasm.Elements.Primitives.Unsigned.Format.{IsLeb, last, more, length-IsLeb}
use parity_wasm.Elements.Primitives.Signed.{read_signed, sign_bit}
use parity_wasm.Elements.Primitives.Signed.Format.{
  extend, shift_in, sleb_value, sleb_value-last, sleb_value_inner,
}
use parity_wasm.Elements.Primitives.Signed.Words.{
  word-shift_in, IsSigned-shift_in, IsSigned-of-shift_in, IsSigned-extend, sign_extension,
  mul-mod_word,
}
use native.Mathlib.Decide.{dec_lt, dec_le}

-- The input begins with an encoding of `z`, of at most `most` bytes, where `z` fits `bits` bits.
abbrev pub Begins : ℕ → ℕ → Bytes → ℤ → Bytes → Type 0
Begins most bits src z rest =
    (p : Bytes) × (src ≡ p ++ rest)
    × IsLeb p
    × (length p ≤ most)
    × (sleb_value p ≡ z)
    × IsSigned bits z

sign_bit_lem : (b : ℕ) → b < 128 → sign_bit b ≡ leb 64 b
unfolding holds_below
sign_bit_lem = agree_tests sign_bit (leb 64) 128 refl

module _ (bits groups top : ℕ) (too_long : Error) (refuses : ℕ → Bool) (too_wide : Error)
    (full : bits ≡ 7 * groups + top) (some_top : 0 < top) (top_fits : top ≤ 7)
    (narrow : (b : ℕ) → b < 128 → refuses b ≡ ltb (2 ^ top) (suc (magnitude (extend b)) * 2))
    (wraps : (b : ℕ) → b < 128 → IsSigned top (extend b) → b % 2 ^ top ≡ word top (extend b)) where
  read_signed_past :
      (res shift : ℕ) (src : Bytes)
      → bits ≤ shift
      → read_signed bits too_long refuses too_wide res shift src ≡ err too_long
  unfolding read_signed
  read_signed_past res shift [] h = rw (lt→ltb (bits - 1) shift (omega arith))
  read_signed_past res shift (b ∷ src) h = rw (lt→ltb (bits - 1) shift (omega arith))

  read_inner :
      (b res shift : ℕ) (rest : Bytes)
      → shift < bits
      → 128 ≤ b
      → read_signed bits too_long refuses too_wide res shift (b ∷ rest)
        ≡ read_signed bits too_long refuses too_wide (joined bits b res shift) (shift + 7) rest
  unfolding read_signed
  read_inner b res shift rest hs hb = ground arith

  -- A last byte below the full width, and one that reaches it.
  read_below :
      (b res shift : ℕ) (rest : Bytes)
      → shift + 7 < bits
      → b < 128
      → read_signed bits too_long refuses too_wide res shift (b ∷ rest)
        ≡ ok (
          (if leb 64 b
              then bit_or (joined bits b res shift) (2 ^ bits - 2 ^ (shift + 7))
              else joined bits b res shift),
          rest,
        )
  unfolding read_signed
  read_below b res shift rest hs hb = rw (← sign_bit_lem b hb) (ground arith)

  read_full :
      (b res shift : ℕ) (rest : Bytes)
      → shift < bits
      → bits ≤ shift + 7
      → b < 128
      → read_signed bits too_long refuses too_wide res shift (b ∷ rest) ≡ (
          if ltb (2 ^ top) (suc (magnitude (extend b)) * 2)
          then err too_wide
          else ok (joined bits b res shift, rest))
  unfolding read_signed
  read_full b res shift rest hs hw hb = rw (← narrow b hb) (ground arith)

  -- The bits from group `j` on.
  abbrev room : ℕ → ℕ
  room j = bits - 7 * j

  joined_below :
      (b res j : ℕ)
      → j < groups
      → b < 128
      → res < 2 ^ (7 * j)
      → joined bits b res (7 * j) ≡ res + b * 2 ^ (7 * j)
  joined_below b res j hj hb hr =
      let low : b % 128 ≡ b = omega arith in
      let fits : b % 128 * 2 ^ (7 * j) < 2 ^ bits =
        omega (arith, group_fits bits j (b % 128) (omega arith) (omega arith), pow_pos (7 * j)) in
      rw (joined_lem bits b res (7 * j) hr fits, low)

  joined_full :
      (b res j : ℕ)
      → 7 * j + top ≡ bits
      → b < 128
      → res < 2 ^ (7 * j)
      → IsSigned top (extend b)
      → joined bits b res (7 * j) ≡ res + word top (extend b) * 2 ^ (7 * j)
  joined_full b res j hj hb hr h =
      let low : b % 128 ≡ b = omega arith in
      rw (← hj, bit_and_seven b, low, mul-mod_word (7 * j) top b)
        (bit_or_disjoint res (b % 2 ^ top) (7 * j) hr
          ∙ ap (λ w. res + w * 2 ^ (7 * j)) (wraps b hb h))

  read_last :
      (b res j : ℕ) (rest : Bytes)
      → j ≤ groups
      → b < 128
      → res < 2 ^ (7 * j)
      → IsSigned (room j) (extend b)
      → read_signed bits too_long refuses too_wide res (7 * j) (b ∷ rest)
        ≡ ok (res + word (room j) (extend b) * 2 ^ (7 * j), rest)
  read_last b res j rest hj hb hr h = elim (dec_lt j groups) [
    | yes lt ↦
        let parts : bits ≡ 7 * j + room j = omega arith in
        let below = read_below b res (7 * j) rest (omega arith) hb in
        let join = joined_below b res j lt hb hr in
        elim (Bool-cases (leb 64 b)) [
          | inl high ↦
              let ones =
                sign_extension (7 * j) (room j) res b (omega arith) hb (leb→le 64 b high) hr in
              below ∙ rw (high, join) (ap (λ w. ok (w, rest)) (rw high at (rw (← parts) at ones)))
          | inr low ↦ below ∙ rw (low, join)
        ]
    | no nlt ↦
        let at_top : room j ≡ top = omega arith in
        let fits : IsSigned top (extend b) = rw at_top at h in
        read_full b res (7 * j) rest (omega arith) (omega arith) hb
        ∙ rw (le→ltb _ _ fits, joined_full b res j (omega arith) hb hr fits, at_top)
  ]

  read_refused :
      (b res j : ℕ) (rest : Bytes)
      → j ≤ groups
      → b < 128
      → ¬ IsSigned (room j) (extend b)
      → read_signed bits too_long refuses too_wide res (7 * j) (b ∷ rest) ≡ err too_wide
  read_refused b res j rest hj hb h = elim (dec_lt j groups) [
    | yes lt ↦ absurd (h (IsSigned-extend (room j) b (omega arith) hb))
    | no nlt ↦
        let at_top : room j ≡ top = omega arith in
        let wide : 2 ^ top < suc (magnitude (extend b)) * 2 = rw (← at_top) (omega arith) in
        read_full b res (7 * j) rest (omega arith) (omega arith) hb ∙ rw (lt→ltb _ _ wide)
  ]

  -- One group less.
  room_next : (j : ℕ) → j < groups → (m : ℕ) × (room (j + 1) ≡ suc m) × (room j ≡ suc m + 7)
  room_next j h = (room (j + 1) - 1, omega arith, omega arith)

  -- An inner byte, and the integer that the later bytes complete.
  inner_word :
      (b res j : ℕ) (z : ℤ)
      → j < groups
      → IsSigned (room (j + 1)) z
      → res + b % 128 * 2 ^ (7 * j) + word (room (j + 1)) z * 2 ^ (7 * (j + 1))
        ≡ res + word (room j) (shift_in (b % 128) z) * 2 ^ (7 * j)
  inner_word b res j z h hz =
      let (m, small, large) = room_next j h in
      let step = word-shift_in (room (j + 1)) (b % 128) z (omega arith) hz in
      let large' : room j ≡ room (j + 1) + 7 = omega (arith, small, large) in
      rw (next_group j, large', step) (omega arith)

  inner_step :
      (b res j : ℕ) (rest : Bytes)
      → j < groups
      → 128 ≤ b
      → res < 2 ^ (7 * j)
      → (res + b % 128 * 2 ^ (7 * j) < 2 ^ (7 * (j + 1)))
        × (read_signed bits too_long refuses too_wide res (7 * j) (b ∷ rest)
            ≡ read_signed bits too_long refuses too_wide
                (res + b % 128 * 2 ^ (7 * j))
                (7 * (j + 1))
                rest)
  inner_step b res j rest hj hb hr =
      let fits : b % 128 * 2 ^ (7 * j) < 2 ^ bits =
        omega (arith, group_fits bits j (b % 128) (omega arith) (omega arith), pow_pos (7 * j)) in
      let moved : 7 * j + 7 ≡ 7 * (j + 1) = omega arith in
      (
        omega (arith, next_group j, lt-mul (b % 128) 128 (2 ^ (7 * j)) (omega arith)),
        read_inner b res (7 * j) rest (omega arith) hb
            ∙ rw (joined_lem bits b res (7 * j) hr fits, moved),
      )

  -- Every encoding of an integer that fits is read, padding included, and what follows is left.
  read_signed-IsLeb :
      {p : Bytes} (l : IsLeb p) (res j : ℕ) (rest : Bytes)
      → j + length p ≤ groups + 1
      → res < 2 ^ (7 * j)
      → IsSigned (room j) (sleb_value p)
      → read_signed bits too_long refuses too_wide res (7 * j) (p ++ rest)
        ≡ ok (res + word (room j) (sleb_value p) * 2 ^ (7 * j), rest)
  read_signed-IsLeb (last {b} hb) res j rest hj hr h =
      let value = sleb_value-last b hb in
      rw value (read_last b res j rest (omega arith) hb hr (rw value at h))
  read_signed-IsLeb (more {b} {bs} hb hb' l) res j rest hj hr h =
      let inner : j < groups = omega (arith, length-IsLeb l) in
      let (m, small, large) = room_next j inner in
      let value = sleb_value_inner b bs hb in
      let fits : IsSigned (room (j + 1)) (sleb_value bs) =
        rw small (
          IsSigned-of-shift_in m (b % 128) (sleb_value bs) (omega arith)
            (rw (value, large) at h)) in
      let (below, step) = inner_step b res j (bs ++ rest) inner hb hr in
      let res' : ℕ = res + b % 128 * 2 ^ (7 * j) in
      step
      ∙ read_signed-IsLeb l res' (j + 1) rest (omega arith) below fits
      ∙ rw value (ap (λ w. ok (w, rest)) (inner_word b res j (sleb_value bs) inner fits))

  -- What a successful read took: an encoding of an integer, which fits the width.
  record Consumed (src : Bytes) (res j w : ℕ) (rest : Bytes) : Type 0 where
    taken : Bytes
    split : src ≡ taken ++ rest
    encoded : IsLeb taken
    short : j + length taken ≤ groups + 1
    fits : IsSigned (room j) (sleb_value taken)
    value : w ≡ res + word (room j) (sleb_value taken) * 2 ^ (7 * j)

  Consumed-more :
      (b : ℕ) (src : Bytes) (res j w : ℕ) (rest : Bytes)
      → j < groups
      → 128 ≤ b
      → IsByte b
      → Consumed src (res + b % 128 * 2 ^ (7 * j)) (j + 1) w rest
      → Consumed (b ∷ src) res j w rest
  Consumed-more b src res j w rest inner hb hb' c =
      let value = sleb_value_inner b c.taken hb in
      let larger : room j ≡ room (j + 1) + 7 = omega arith in
      let wider = IsSigned-shift_in (room (j + 1)) (b % 128) _ (omega arith) c.fits in
      record {
        taken = b ∷ c.taken;
        split = ap (λ bs. b ∷ bs) c.split;
        encoded = more hb hb' c.encoded;
        short = omega (arith, c.short);
        fits =
            rw value (
              subst (λ m. IsSigned m (shift_in (b % 128) (sleb_value c.taken))) (sym larger) wider);
        value = rw value (c.value ∙ inner_word b res j (sleb_value c.taken) inner c.fits);
      }

  read_signed-Consumed :
      (src : Bytes) (res j w : ℕ) (rest : Bytes)
      → All IsByte src
      → j ≤ groups
      → res < 2 ^ (7 * j)
      → read_signed bits too_long refuses too_wide res (7 * j) src ≡ ok (w, rest)
      → Consumed src res j w rest
  read_signed-Consumed [] res j w rest hs hj hr e = unfold read_signed in ground arith
  read_signed-Consumed (b ∷ src) res j w rest (hb, hs) hj hr e = elim (dec_lt b 128) [
    | yes lt ↦ elim (dec_le (suc (magnitude (extend b)) * 2) (2 ^ room j)) [
      | yes fits ↦
          let result = read_last b res j src hj lt hr fits in
          let value = sleb_value-last b lt in
          record {
            taken = b ∷ [];
            split = cc (result, e);
            encoded = last lt;
            short = omega arith;
            fits = rw value fits;
            value = rw value (cc (result, e));
          }
      | no wide ↦ cc (read_refused b res j src hj lt wide, e)
    ]
    | no nlt ↦ elim (dec_lt j groups) [
      | yes inner ↦
          let (below, step) = inner_step b res j src inner (omega arith) hr in
          let res' : ℕ = res + b % 128 * 2 ^ (7 * j) in
          let c =
            read_signed-Consumed src res' (j + 1) w rest hs (omega arith) below (rw step at e) in
          Consumed-more b src res j w rest inner (omega arith) hb c
      | no at_last ↦
          let step = read_inner b res (7 * j) src (omega arith) (omega arith) in
          let past = read_signed_past (joined bits b res (7 * j)) (7 * j + 7) src (omega arith) in
          cc (step, past, e)
    ]
  ]

  pub read_signed-Begins :
      (src : Bytes) (z : ℤ) (rest : Bytes)
      → Begins (groups + 1) bits src z rest
      → read_signed bits too_long refuses too_wide 0 0 src ≡ ok (word bits z, rest)
  read_signed-Begins src z rest (p, split, l, short, value, fits) =
      let whole : room 0 ≡ bits = omega arith in
      let read =
        read_signed-IsLeb l 0 0 rest (omega (arith, short)) (omega arith)
          (rw (value, whole) fits) in
      rw split (read ∙ rw (value, whole) (ap (λ w. ok (w, rest)) (omega arith)))

  -- From the start of a number: success means that the input begins with an encoding.
  pub read_signed-eq-ok :
      (src : Bytes) (w : ℕ) (rest : Bytes)
      → All IsByte src
      → read_signed bits too_long refuses too_wide 0 0 src ≡ ok (w, rest)
      → (z : ℤ) × (w ≡ word bits z) × Begins (groups + 1) bits src z rest
  read_signed-eq-ok src w rest hs e =
      let c = read_signed-Consumed src 0 0 w rest hs (omega arith) (omega arith) e in
      let whole : room 0 ≡ bits = omega arith in
      (
        sleb_value c.taken,
        rw whole at c.value ∙ omega arith,
        (c.taken, c.split, c.encoded, omega (arith, c.short), refl, rw whole at c.fits),
      )
