-- ===== src/Elements/IndexMap/Total.antt =====
-- The readers of index maps end on every input.
use parity_wasm.Base.{ℕ, zero, suc, Option}
use parity_wasm.Elements.Codec.{Reader}
use parity_wasm.Elements.Total.{IsTotal}
use parity_wasm.Elements.Primitives.Total.{reader_rules}
use parity_wasm.Elements.IndexMap.{IndexMap, deserialize_items, deserialize_with, deserialize}

module _ {T : Type 0} (max : ℕ) (f : ℕ → Reader T) (each : (i : ℕ) → IsTotal (f i)) where
  items-IsTotal :
      (count : ℕ) (prev : Option ℕ) (m : IndexMap T)
      → IsTotal (deserialize_items max f count prev m)
  unfolding deserialize_items
  items-IsTotal zero prev m = search reader_rules
  items-IsTotal (suc count) prev m = search (reader_rules, each, items-IsTotal count) depth 14

  pub deserialize_with-IsTotal : IsTotal (deserialize_with max f)
  unfolding deserialize_with
  deserialize_with-IsTotal = search (reader_rules, items-IsTotal) depth 14

pub deserialize-IsTotal :
    {T : Type 0} (max : ℕ) (d : Reader T) → IsTotal d → IsTotal (deserialize max d)
unfolding deserialize
deserialize-IsTotal max d h = deserialize_with-IsTotal max (λ _. d) (λ _. h)
