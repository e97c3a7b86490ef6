-- ===== src/Elements/Primitives/VarUint1.antt =====
-- src/elements/primitives.rs: `VarUint1`, a truth value in a byte.
use parity_wasm.Base.{Bool, true, false, [], ◌∷◌, ok, refl, ◌==◌, if◌then◌else◌}
use parity_wasm.Elements.Error.{invalid_var_uint1}
use parity_wasm.Elements.Codec.{Reader, read_u8, ◌>>=◌, pure, fail, Written, Restores}
use parity_wasm.Elements.Total.{IsTotal, read_u8-IsTotal, total_rules}

unfoldable pub deserialize : Reader Bool
deserialize = do
  v ← read_u8
  if v == 0 then pure false else (if v == 1 then pure true else fail (invalid_var_uint1 v))

unfoldable pub serialize : Bool → Written
serialize b = ok ((if b then 1 else 0) ∷ [])

pub VarUint1-Restores : (b : Bool) → Restores (serialize b) deserialize b
unfolding serialize deserialize
VarUint1-Restores true = record { bytes = 1 ∷ []; written = refl; reads = λ rest. refl }
VarUint1-Restores false = record { bytes = 0 ∷ []; written = refl; reads = λ rest. refl }

pub VarUint1-IsTotal : IsTotal deserialize
unfolding deserialize
VarUint1-IsTotal = search (total_rules, read_u8-IsTotal)
