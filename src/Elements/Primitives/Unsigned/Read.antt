-- ===== src/Elements/Primitives/Unsigned/Read.antt =====
-- The loop of `deserialize` at a word of `bits` bits, of which the last byte of a full encoding, at
-- the shift `last_shift`, holds `top`.
use parity_wasm.Base.{
  ℕ, ◌+◌, ◌-◌, ◌*◌, ◌%◌, ◌^◌, ◌≤◌, ◌<◌, ◌≡◌, ap, ◌∙◌, false, [], ◌∷◌, ◌++◌, Outcome, ok, err, ltb,
  leb, length, arith, lt→ltb, ◌&&◌, if◌then◌else◌, Bool-cases, inl, inr, All, ◌↔◌,
}
use parity_wasm.Base.Bits.{pow-add, pow_pos}
use parity_wasm.Elements.Error.{Error}
use parity_wasm.Elements.Codec.{Bytes, IsByte}
use parity_wasm.Elements.Primitives.Unsigned.{leading_zeros, read_unsigned}
use parity_wasm.Elements.Primitives.Unsigned.Format.{IsLeb, last, more, length-IsLeb, leb_value}
use parity_wasm.Elements.Primitives.Groups.{
  lt-mul, next_group, group_fits, top_group, joined, joined_lem,
}
use native.Mathlib.Decide.{dec_lt}

-- The input begins with an encoding of `v`, of at most `most` bytes, where `v` fits `bits` bits.
abbrev pub Begins : ℕ → ℕ → Bytes → ℕ → Bytes → Type 0
Begins most bits src v rest =
    (p : Bytes) × (src ≡ p ++ rest)
    × IsLeb p
    × (length p ≤ most)
    × (leb_value p ≡ v)
    × (v < 2 ^ bits)

module _ (bits zeros last_shift top : ℕ) (too_long too_wide : Error)
    (full : bits ≡ last_shift + top) (some_top : 0 < top)
    (narrow : (b : ℕ) → b < 128 → ltb (leading_zeros b) zeros ≡ leb (2 ^ top) b) where
  -- The loop does not go past the width.
  read_unsigned_past :
      (res shift : ℕ) (src : Bytes)
      → bits ≤ shift
      → read_unsigned bits zeros too_long too_wide res shift src ≡ err too_long
  unfolding read_unsigned
  read_unsigned_past res shift [] h = rw (lt→ltb (bits - 1) shift (omega arith))
  read_unsigned_past res shift (b ∷ src) h = rw (lt→ltb (bits - 1) shift (omega arith))

  read_inner :
      (b res shift : ℕ) (rest : Bytes)
      → shift < bits
      → 128 ≤ b
      → read_unsigned bits zeros too_long too_wide res shift (b ∷ rest)
        ≡ read_unsigned bits zeros too_long too_wide (joined bits b res shift) (shift + 7) rest
  unfolding read_unsigned
  read_inner b res shift rest hs hb = ground arith

  read_last :
      (b res shift : ℕ) (rest : Bytes)
      → shift < bits
      → b < 128
      → read_unsigned bits zeros too_long too_wide res shift (b ∷ rest) ≡ (
          if leb bits (shift + 7) && leb (2 ^ top) b
          then err too_wide
          else ok (joined bits b res shift, rest))
  unfolding read_unsigned
  read_last b res shift rest hs hb = rw (← narrow b hb) (ground arith)

  module _ (groups : ℕ) (multiple : last_shift ≡ 7 * groups) (top_fits : top ≤ 7) where
    last_fits :
        (b j : ℕ)
        → j ≤ groups
        → b * 2 ^ (7 * j) < 2 ^ bits
        → (leb bits (7 * j + 7) && leb (2 ^ top) b) ≡ false
    last_fits b j hj h = elim (dec_lt j groups) [
      | yes lt ↦ ground arith
      | no nlt ↦
          let full' : bits ≡ 7 * j + top = omega arith in
          ground (arith, top_group (7 * j) top b (rw full' at h))
    ]

    -- Every encoding of a number that fits is read, padding included, and what follows is left.
    pub read_unsigned-IsLeb :
        {p : Bytes} (l : IsLeb p) (res j : ℕ) (rest : Bytes)
        → j + length p ≤ groups + 1
        → res < 2 ^ (7 * j)
        → res + leb_value p * 2 ^ (7 * j) < 2 ^ bits
        → read_unsigned bits zeros too_long too_wide res (7 * j) (p ++ rest)
          ≡ ok (res + leb_value p * 2 ^ (7 * j), rest)
    read_unsigned-IsLeb (last {b} hb) res j rest hj hr hv =
        let low : b % 128 ≡ b = omega arith in
        let fits : b % 128 * 2 ^ (7 * j) < 2 ^ bits = omega arith in
        rw
          (
            read_last b res (7 * j) rest (omega arith) hb,
            last_fits b j (omega arith) (rw low at fits),
            joined_lem bits b res (7 * j) hr fits,
          )
          (ap (λ v. ok (v, rest)) (omega arith))
    read_unsigned-IsLeb (more {b} {bs} hb hb' l) res j rest hj hr hv =
        let inner : j < groups = omega (arith, length-IsLeb l) in
        let fits : b % 128 * 2 ^ (7 * j) < 2 ^ bits =
          omega (arith, group_fits bits j (b % 128) (omega arith) (omega arith), pow_pos (7 * j)) in
        let next : 7 * j + 7 ≡ 7 * (j + 1) = omega arith in
        let res' : ℕ = res + b % 128 * 2 ^ (7 * j) in
        let total : res' + leb_value bs * 2 ^ (7 * (j + 1))
            ≡ res + leb_value (b ∷ bs) * 2 ^ (7 * j) =
          rw (next_group j) (omega arith) in
        rw (
          read_inner b res (7 * j) (bs ++ rest) (omega arith) hb,
          joined_lem bits b res (7 * j) hr fits,
          next,
          read_unsigned-IsLeb l res' (j + 1) rest (omega arith)
              (omega (arith, next_group j, lt-mul (b % 128) 128 (2 ^ (7 * j)) (omega arith)))
              (rw total hv),
          total,
        )

    -- The last byte, where the test of its leading zeros lets it pass.
    last_room :
        (b j : ℕ)
        → j ≤ groups
        → b < 128
        → (leb bits (7 * j + 7) && leb (2 ^ top) b) ≡ false
        → b * 2 ^ (7 * j) + 2 ^ (7 * j) ≤ 2 ^ bits
    last_room b j hj hb passed = elim (dec_lt j groups) [
      | yes lt ↦ group_fits bits j b (omega arith) hb
      | no nlt ↦
          let full' : bits ≡ 7 * j + top = omega arith in
          let narrow' : b < 2 ^ top = ground arith in
          rw (full', pow-add (7 * j) top) (omega (arith, lt-mul b (2 ^ top) (2 ^ (7 * j)) narrow'))
    ]

    -- What a successful read took: an encoding of the number, which fits the width.
    pub record Consumed (src : Bytes) (res j v : ℕ) (rest : Bytes) : Type 0 where
      pub taken : Bytes
      pub split : src ≡ taken ++ rest
      pub encoded : IsLeb taken
      pub short : j + length taken ≤ groups + 1
      pub value : v ≡ res + leb_value taken * 2 ^ (7 * j)
      pub fits : v < 2 ^ bits

    Consumed-last :
        (b : ℕ) (src : Bytes) (res j v : ℕ) (rest : Bytes)
        → j ≤ groups
        → b < 128
        → res < 2 ^ (7 * j)
        → (leb bits (7 * j + 7) && leb (2 ^ top) b) ≡ false
        → read_unsigned bits zeros too_long too_wide res (7 * j) (b ∷ src) ≡ ok (v, rest)
        → Consumed (b ∷ src) res j v rest
    Consumed-last b src res j v rest hj hb hr passed e =
        let low : b % 128 ≡ b = omega arith in
        let room = last_room b j hj hb passed in
        let fits' : b % 128 * 2 ^ (7 * j) < 2 ^ bits =
          rw low (omega (arith, room, pow_pos (7 * j))) in
        let result : ◌≡◌ {A = Outcome Error (ℕ × Bytes)} (ok (res + b % 128 * 2 ^ (7 * j), src))
            (ok (v, rest)) =
          rw
            (
              read_last b res (7 * j) src (omega arith) hb,
              passed,
              joined_lem bits b res (7 * j) hr fits',
            )
            at e in
        let sum : v ≡ res + b % 128 * 2 ^ (7 * j) = cc result in
        record {
          taken = b ∷ [];
          split = cc result;
          encoded = last hb;
          short = omega arith;
          value = omega (arith, sum);
          fits = omega (arith, sum, room, ap (λ k. k * 2 ^ (7 * j)) low);
        }

    pub read_unsigned-Consumed :
        (src : Bytes) (res j v : ℕ) (rest : Bytes)
        → All IsByte src
        → j ≤ groups
        → res < 2 ^ (7 * j)
        → read_unsigned bits zeros too_long too_wide res (7 * j) src ≡ ok (v, rest)
        → Consumed src res j v rest
    read_unsigned-Consumed [] res j v rest hs hj hr e = unfold read_unsigned in ground arith
    read_unsigned-Consumed (b ∷ src) res j v rest (hb, hs) hj hr e = elim (dec_lt b 128) [
      | yes lt ↦ elim (Bool-cases (leb bits (7 * j + 7) && leb (2 ^ top) b)) [
        | inl refused ↦
            let failed = rw refused at (read_last b res (7 * j) src (omega arith) lt) in
            cc (failed, e)
        | inr passed ↦ Consumed-last b src res j v rest hj lt hr passed e
      ]
      | no nlt ↦
          let step = read_inner b res (7 * j) src (omega arith) (omega arith) in
          elim (dec_lt j groups) [
            | yes inner ↦
                let room = group_fits bits j (b % 128) (omega arith) (omega arith) in
                let moved : 7 * j + 7 ≡ 7 * (j + 1) = omega arith in
                let res' : ℕ = res + b % 128 * 2 ^ (7 * j) in
                let c =
                  read_unsigned-Consumed src res' (j + 1) v rest hs (omega arith)
                    (omega (arith, next_group j, lt-mul (b % 128) 128 (2 ^ (7 * j)) (omega arith)))
                    (rw
                      (
                        step,
                        joined_lem bits b res (7 * j) hr (omega (arith, room, pow_pos (7 * j))),
                        moved,
                      )
                      at e) in
                record {
                  taken = b ∷ c.taken;
                  split = ap (λ bs. b ∷ bs) c.split;
                  encoded = more (omega arith) hb c.encoded;
                  short = omega (arith, c.short);
                  value = rw next_group at c.value ∙ omega arith;
                  fits = c.fits;
                }
            | no at_last ↦
                let past =
                  read_unsigned_past (joined bits b res (7 * j)) (7 * j + 7) src (omega arith) in
                cc (step, past, e)
          ]
    ]

    pub read_unsigned-Begins :
        (src : Bytes) (v : ℕ) (rest : Bytes)
        → Begins (groups + 1) bits src v rest
        → read_unsigned bits zeros too_long too_wide 0 0 src ≡ ok (v, rest)
    read_unsigned-Begins src v rest (p, split, l, short, value, fits) =
        let same : leb_value p * 2 ^ (7 * 0) ≡ v = omega (arith, value) in
        let read =
          read_unsigned-IsLeb l 0 0 rest (omega (arith, short)) (omega arith)
            (omega (arith, same, fits)) in
        rw split (read ∙ ap (λ n. ok (n, rest)) (omega (arith, same)))

    -- From the start of a number: success means that the input begins with an encoding.
    pub read_unsigned_iff :
        (src : Bytes) (v : ℕ) (rest : Bytes)
        → All IsByte src
        → (read_unsigned bits zeros too_long too_wide 0 0 src ≡ ok (v, rest))
          ↔ Begins (groups + 1) bits src v rest
    read_unsigned_iff src v rest hs = (
      (λ e.
          let c = read_unsigned-Consumed src 0 0 v rest hs (omega arith) (omega arith) e in
          (c.taken, c.split, c.encoded, omega (arith, c.short), omega (arith, c.value), c.fits)),
      read_unsigned-Begins src v rest,
    )
