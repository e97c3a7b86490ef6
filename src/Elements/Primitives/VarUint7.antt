-- ===== src/Elements/Primitives/VarUint7.antt =====
-- src/elements/primitives.rs: `VarUint7`, one byte, read and written as it is.
use parity_wasm.Base.{ℕ, [], ◌∷◌, ok, refl}
use parity_wasm.Elements.Codec.{Reader, read_u8, Written, Restores}
use parity_wasm.Elements.Total.{IsProgress, read_u8-IsProgress}

unfoldable pub deserialize : Reader ℕ
deserialize = read_u8

unfoldable pub serialize : ℕ → Written
serialize v = ok (v ∷ [])

pub VarUint7-Restores : (v : ℕ) → Restores (serialize v) deserialize v
unfolding serialize deserialize
VarUint7-Restores v = record { bytes = v ∷ []; written = refl; reads = λ rest. refl }

pub VarUint7-IsProgress : IsProgress deserialize
unfolding deserialize
VarUint7-IsProgress = read_u8-IsProgress
