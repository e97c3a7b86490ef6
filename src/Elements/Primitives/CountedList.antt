-- ===== src/Elements/Primitives/CountedList.antt =====
-- src/elements/primitives.rs: `CountedList` and `CountedListWriter`.
use parity_wasm.Base.{ℕ, zero, suc, ◌<◌, ◌^◌, refl, List, [], ◌∷◌, ok, length, All}
use parity_wasm.Elements.Codec.{
  Reader, ◌>>=◌, pure, Written, ◌⊹◌, Restores, Restores-bind, Restores-map,
}
use parity_wasm.Elements.Primitives.VarUint32
use parity_wasm.Elements.Total.{IsTotal, IsTotal-bind, IsTotal-pure}

module _ {A : Type 0} where
  -- `for _ in 0..count { result.push(T::deserialize(reader)?); }`
  unfoldable pub deserialize_items : Reader A → ℕ → Reader (List A)
  deserialize_items d zero = pure []
  deserialize_items d (suc count) = do
    item ← d
    items ← deserialize_items d count
    pure (item ∷ items)

  unfoldable pub deserialize : Reader A → Reader (List A)
  unfolding deserialize_items
  deserialize d = do count ← VarUint32.deserialize; deserialize_items d count

  -- `for data_element in data { data_element.serialize(writer)? }`
  unfoldable pub serialize_items : (A → Written) → List A → Written
  serialize_items s [] = ok []
  serialize_items s (item ∷ items) = s item ⊹ serialize_items s items

  -- The writer is given the length and the elements apart.
  unfoldable pub serialize : (A → Written) → ℕ → List A → Written
  unfolding serialize_items
  serialize s len items = VarUint32.serialize_usize len ⊹ serialize_items s items

  module _ (d : Reader A) (s : A → Written) where
    items-Restores :
        (xs : List A)
        → All (λ x. Restores (s x) d x) xs
        → Restores (serialize_items s xs) (deserialize_items d (length xs)) xs
    unfolding deserialize_items serialize_items
    items-Restores [] h = record { bytes = []; written = refl; reads = λ rest. refl }
    items-Restores (x ∷ xs) (hx, h) =
        Restores-bind _ hx (Restores-map _ (items-Restores xs h) (λ rest. refl))

    -- A list is read back if each of its elements is, and its length fits 32 bits.
    pub CountedList-Restores :
        (xs : List A)
        → length xs < 2 ^ 32
        → All (λ x. Restores (s x) d x) xs
        → Restores (serialize s (length xs) xs) (deserialize d) xs
    unfolding deserialize serialize
    CountedList-Restores xs h hs =
        Restores-bind _ (VarUint32.serialize_usize-Restores (length xs) h) (items-Restores xs hs)

  items-IsTotal : (d : Reader A) (count : ℕ) → IsTotal d → IsTotal (deserialize_items d count)
  unfolding deserialize_items
  items-IsTotal d zero h = IsTotal-pure _
  items-IsTotal d (suc count) h =
      IsTotal-bind _ _ h
        (λ item. IsTotal-bind _ _ (items-IsTotal d count h) (λ items. IsTotal-pure _))

  pub CountedList-IsTotal : (d : Reader A) → IsTotal d → IsTotal (deserialize d)
  unfolding deserialize
  CountedList-IsTotal d h =
      IsTotal-bind _ _ VarUint32.VarUint32-IsTotal (λ count. items-IsTotal d count h)
