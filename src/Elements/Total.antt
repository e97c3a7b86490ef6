-- ===== src/Elements/Total.antt =====
-- Readers that end on every input, with a value or an error.
use parity_wasm.Base.{
  ℕ, zero, suc, ◌+◌, ◌≤◌, ◌<◌, ◌≡◌, refl, Bool, true, false, if◌then◌else◌, List, [], ◌∷◌, length,
  Outcome, ok, err, panic, out_of_fuel, arith, Bool-cases, inl, inr, length-drop, Option, none,
  some, ltb,
}
use parity_wasm.Elements.Error.{Error, is_eof}
use parity_wasm.Elements.Codec.{Bytes, Reader, pure, fail, after, ◌>>=◌, read, read_u8, ok_or}

-- Of `n` bytes at least `k` are used, or an error ends the read that is not the end of a module.
pub data Ends {A : Type 0} (k n : ℕ) : Outcome Error (A × Bytes) → Type 0 where
  returned : {a : A} {rest : Bytes} → k + length rest ≤ n → Ends k n (ok (a, rest))
  refused : {e : Error} → is_eof e ≡ false → Ends k n (err e)

pub record IsTotal {A : Type 0} (d : Reader A) : Type 0 where
  pub at : (src : Bytes) → Ends 0 (length src) (d src)

-- A reader that uses a byte at least.
pub record IsProgress {A : Type 0} (d : Reader A) : Type 0 where
  pub at : (src : Bytes) → Ends 1 (length src) (d src)

module _ {A : Type 0} where
  pub Ends-if :
      {k n : ℕ} (b : Bool) {x y : Outcome Error (A × Bytes)}
      → Ends k n x
      → Ends k n y
      → Ends k n (if b then x else y)
  Ends-if true h h' = h
  Ends-if false h h' = h'

  -- The same, of a choice between readers.
  pub Ends-choice :
      {k n : ℕ} (b : Bool) (d d' : Reader A) (src : Bytes)
      → Ends k n (d src)
      → Ends k n (d' src)
      → Ends k n ((if b then d else d') src)
  Ends-choice true d d' src h h' = h
  Ends-choice false d d' src h h' = h'

  pub Ends-le :
      {k j n m : ℕ} {o : Outcome Error (A × Bytes)} → n + j ≤ m + k → Ends k n o → Ends j m o
  Ends-le le (returned h) = returned (omega (arith, le, h))
  Ends-le le (refused h) = refused h

  pub IsTotal-pure : (a : A) → IsTotal (pure a)
  IsTotal-pure a = record { at = λ src. returned (omega arith) }

  pub IsTotal-fail : (e : Error) → is_eof e ≡ false → IsTotal {A = A} (fail e)
  IsTotal-fail e h = record { at = λ src. refused h }

  pub IsTotal-if :
      (b : Bool) (d d' : Reader A) → IsTotal d → IsTotal d' → IsTotal (if b then d else d')
  IsTotal-if true d d' h h' = h
  IsTotal-if false d d' h h' = h'

  pub IsTotal-ok_or : (o : Option A) (e : Error) → is_eof e ≡ false → IsTotal (ok_or o e)
  IsTotal-ok_or (some a) e h = record { at = λ src. returned (omega arith) }
  IsTotal-ok_or none e h = record { at = λ src. refused h }

  pub IsTotal-progress : {d : Reader A} → IsProgress d → IsTotal d
  IsTotal-progress h = record { at = λ src. Ends-le (omega arith) (h.at src) }

module _ {A B : Type 0} where
  Ends-after :
      {k n : ℕ} {o : Outcome Error (A × Bytes)} {f : A → Reader B}
      → Ends k n o
      → ((a : A) → IsTotal (f a))
      → Ends k n (after o f)
  Ends-after (returned {a} {rest} h) t = Ends-le (omega (arith, h)) ((t a).at rest)
  Ends-after (refused h) t = refused h

  -- What follows a read, on an input of the bytes that it left.
  pub Ends-then :
      {j k n : ℕ} {o : Outcome Error (A × Bytes)} (f : A → Reader B)
      → Ends k n o
      → ((a : A) (rest : Bytes) → k + length rest ≤ n → Ends j n (f a rest))
      → Ends j n (after o f)
  Ends-then f (returned {a} {rest} h) t = t a rest h
  Ends-then f (refused h) t = refused h

  pub IsTotal-bind :
      (d : Reader A) (f : A → Reader B) → IsTotal d → ((a : A) → IsTotal (f a)) → IsTotal (d >>= f)
  IsTotal-bind d f h t = record { at = λ src. Ends-after (h.at src) t }

  pub IsProgress-bind :
      (d : Reader A) (f : A → Reader B)
      → IsProgress d
      → ((a : A) → IsTotal (f a))
      → IsProgress (d >>= f)
  IsProgress-bind d f h t = record { at = λ src. Ends-after (h.at src) t }

pub read_u8-IsProgress : IsProgress read_u8
read_u8-IsProgress = record { at = at_read }
  where
    at_read : (src : Bytes) → Ends 1 (length src) (read_u8 src)
    at_read [] = refused refl
    at_read (b ∷ rest) = returned (omega arith)

pub read_u8-IsTotal : IsTotal read_u8
read_u8-IsTotal = IsTotal-progress read_u8-IsProgress

pub read-IsTotal : (n : ℕ) → IsTotal (read n)
unfolding read
read-IsTotal n = record {
  at = λ src.
      Ends-if (ltb (length src) n) (refused refl) (returned (omega (arith, length-drop n src)));
}

-- A block of reads, each of which is total.
pub ruleset total_rules =
    (IsTotal-pure, IsTotal-fail, IsTotal-if, IsTotal-bind, IsTotal-ok_or, refl)
