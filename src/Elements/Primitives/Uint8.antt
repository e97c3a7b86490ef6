-- ===== src/Elements/Primitives/Uint8.antt =====
-- src/elements/primitives.rs: `Uint8`, a byte that is not LEB128.
use parity_wasm.Base.{ℕ, [], ◌∷◌, ok, refl}
use parity_wasm.Elements.Codec.{Reader, read_u8, Written, Restores}
use parity_wasm.Elements.Total.{IsProgress, read_u8-IsProgress}

unfoldable pub deserialize : Reader ℕ
deserialize = read_u8

unfoldable pub serialize : ℕ → Written
serialize v = ok (v ∷ [])

pub Uint8-Restores : (v : ℕ) → Restores (serialize v) deserialize v
unfolding serialize deserialize
Uint8-Restores v = record { bytes = v ∷ []; written = refl; reads = λ rest. refl }

pub Uint8-IsProgress : IsProgress deserialize
unfolding deserialize
Uint8-IsProgress = read_u8-IsProgress
