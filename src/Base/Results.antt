-- ===== src/Base/Results.antt =====
-- The outcomes of the program's functions, at any type of errors.

-- `panic` is a failed `assert!` or `expect`. `out_of_fuel` is no outcome of the program: a loop of the
-- model ran out of its rounds.
pub data Outcome {ℓ} (E : Type 0) (A : Type ℓ) : Type ℓ where
  ok : A → Outcome E A
  err : E → Outcome E A
  panic out_of_fuel : Outcome E A

module _ {ℓ κ} {E : Type 0} {A : Type ℓ} {B : Type κ} where
  -- A call on what another returned.
  infixl 5 ◌>>=◌
  abbrev pub ◌>>=◌ : Outcome E A → (A → Outcome E B) → Outcome E B
  out_of_fuel >>= next = out_of_fuel
  panic >>= next = panic
  err e >>= next = err e
  ok value >>= next = next value
