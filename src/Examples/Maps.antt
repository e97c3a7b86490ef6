-- ===== src/Examples/Maps.antt =====
-- The maps of src/elements/index_map.rs.
use parity_wasm.Base.{
  ℕ, ◌+◌, ◌^◌, ◌≤◌, ◌<◌, ◌≡◌, ◌↔◌, refl, [], ◌∷◌, none, some, true, ok, length, arith, ◌==◌,
  if◌then◌else◌, zero, suc,
}
use parity_wasm.Elements.Codec.{Restores}
use parity_wasm.Elements.Primitives.VarUint32
use parity_wasm.Elements.Primitives.Unsigned.{read_unsigned}
use parity_wasm.Elements.IndexMap.{
  IndexMap, get, insert, remove, equal, eq_option, into_iter, collect, serialize, deserialize_with,
  deserialize_items,
}
use parity_wasm.Elements.IndexMap.Lookup.{get-insert, get-remove}
use parity_wasm.Elements.IndexMap.Valid.{IsValid, weight, insert-IsValid, remove-IsValid}
use parity_wasm.Elements.IndexMap.Equal.{equal_iff}
use parity_wasm.Elements.IndexMap.Iteration.{pairs, collect-into_iter}
use parity_wasm.Elements.IndexMap.Serial.{IndexMap-Restores}
use parity_wasm.Elements.IndexMap.Bounds.{deserialize_with_bounded}

-- Holes at 0 and 2, and the value 9 at 1.
abbrev one_entry : IndexMap ℕ
one_entry = record { len = 1; entries = none ∷ some 9 ∷ none ∷ [] }

abbrev trimmed : IndexMap ℕ
trimmed = record { len = 1; entries = none ∷ some 9 ∷ [] }

get-insert_example :
    ((insert one_entry 5 4).1 ≡ get one_entry 5)
    × (get (insert one_entry 5 4).0 1 ≡ (if 5 == 1 then some 4 else get one_entry 1))
get-insert_example = get-insert one_entry 5 1 4

get-remove_example :
    ((remove one_entry 1).1 ≡ get one_entry 1)
    × (get (remove one_entry 1).0 1 ≡ (if 1 == 1 then none else get one_entry 1))
get-remove_example = get-remove one_entry 1 1

insert-IsValid_example : IsValid (insert one_entry 5 4).0
insert-IsValid_example = insert-IsValid one_entry 5 4 refl

remove-IsValid_example :
    IsValid (remove one_entry 1).0
    × ((remove one_entry 1).0.len + weight (get one_entry 1) ≡ one_entry.len)
remove-IsValid_example = remove-IsValid one_entry 1 refl

-- Maps whose values are maps, as those of local names are.
abbrev holding : IndexMap ℕ → IndexMap (IndexMap ℕ)
holding m = record { len = 1; entries = some m ∷ [] }

equal_iff_example : (equal (equal ◌==◌) (holding one_entry) (holding trimmed) ≡ true) ↔ (
    (i : ℕ) → eq_option (equal ◌==◌) (get (holding one_entry) i) (get (holding trimmed) i) ≡ true)
equal_iff_example = equal_iff (equal ◌==◌) (holding one_entry) (holding trimmed) refl refl

collect-into_iter_example : collect 3 (into_iter one_entry) ≡ pairs 0 (none ∷ some 9 ∷ none ∷ [])
collect-into_iter_example = collect-into_iter one_entry refl (omega arith)

only_nine : (i v : ℕ) → get one_entry i ≡ some v → v < 2 ^ 32
unfolding get
only_nine zero v e = cc e
only_nine (suc zero) v e = ground arith
only_nine (suc (suc zero)) v e = cc e
only_nine (suc (suc (suc i))) v e = cc e

IndexMap-Restores_example :
    (m' : IndexMap ℕ) × Restores
      (serialize VarUint32.serialize one_entry)
      (deserialize_with 3 (λ _. VarUint32.deserialize))
      m'
    × IsValid m'
    × ((i : ℕ) → get m' i ≡ get one_entry i)
IndexMap-Restores_example =
    IndexMap-Restores VarUint32.serialize (λ _. VarUint32.deserialize) 3 one_entry refl
      (omega arith) (omega arith) (λ i v e. VarUint32.serialize_u32-Restores v (only_nine i v e))

bounded_run : deserialize_with 3 (λ _. VarUint32.deserialize) (1 ∷ 1 ∷ 9 ∷ []) ≡ ok (trimmed, [])
unfolding deserialize_with deserialize_items insert get VarUint32.deserialize read_unsigned
bounded_run = refl

deserialize_with_bounded_example : (length trimmed.entries ≤ 3) × IsValid trimmed
deserialize_with_bounded_example =
    deserialize_with_bounded 3 (λ _. VarUint32.deserialize) (1 ∷ 1 ∷ 9 ∷ []) [] trimmed bounded_run
