-- ===== src/Elements/IndexMap.antt =====
-- src/elements/index_map.rs: a map from `u32` to `T`, kept as a vector with holes.
pub mod Lookup
pub mod Valid
pub mod Equal
pub mod Iteration
pub mod Serial
pub mod Total
pub mod Bounds
use parity_wasm.Base.{
  ℕ, zero, suc, ◌+◌, ◌-◌, ◌%◌, ◌^◌, min, Bool, true, false, ◌&&◌, not, List, [], ◌∷◌, ◌++◌, Option,
  none, some, leb, ltb, ◌==◌, if◌then◌else◌, length, get_elem?, set, take, replicate, ok, String,
}
use parity_wasm.Elements.Error.{Error, other}
use parity_wasm.Elements.Codec.{Reader, ◌>>=◌, pure, fail, Written, ◌⊹◌}
use parity_wasm.Elements.Primitives.VarUint32

-- `len` counts the entries that are not `none`.
pub record IndexMap (T : Type 0) : Type 0 where
  pub len : ℕ
  pub entries : List (Option T)

-- `-= 1` on a `usize` of 64 bits, which wraps at 0 (a debug build panics there).
abbrev pub less_one : ℕ → ℕ
less_one len = if len == 0 then 2 ^ 64 - 1 else len - 1

module _ {T : Type 0} where
  -- The capacity is no part of the value.
  abbrev pub with_capacity : ℕ → IndexMap T
  with_capacity capacity = record { len = 0; entries = [] }

  unfoldable pub clear : IndexMap T → IndexMap T
  clear m = record { len = 0; entries = [] }

  -- `Some(&Some(ref value))`
  abbrev flatten : Option (Option T) → Option T
  flatten (some (some value)) = some value
  flatten (some none) = none
  flatten none = none

  unfoldable pub get : IndexMap T → ℕ → Option T
  unfolding flatten
  get m idx = flatten (get_elem? m.entries idx)

  abbrev is_some : Option T → Bool
  is_some (some value) = true
  is_some none = false

  unfoldable pub contains_key : IndexMap T → ℕ → Bool
  unfolding flatten is_some
  contains_key m idx = is_some (flatten (get_elem? m.entries idx))

  -- The loop pushes `none` until the vector has `idx` entries. The value returned is the one replaced.
  unfoldable pub insert : IndexMap T → ℕ → T → IndexMap T × Option T
  unfolding is_some
  insert m idx value =
      let existing = get m idx in
      if leb (length m.entries) idx
      then (
        record {
          len = m.len + 1;
          entries = m.entries ++ (replicate (idx - length m.entries) none ++ some value ∷ []);
        },
        none,
      )
      else (
        record {
          len = (if is_some existing then m.len else m.len + 1);
          entries = set m.entries idx (some value);
        },
        existing,
      )

  unfoldable pub remove : IndexMap T → ℕ → IndexMap T × Option T
  unfolding is_some
  remove m idx =
      let existing = get m idx in
      if is_some existing
      then (record { len = less_one m.len; entries = set m.entries idx none }, existing)
      else (m, none)

  unfoldable pub is_empty : IndexMap T → Bool
  is_empty m = m.len == 0

  -- `slice::eq`, at an equality of the entries.
  abbrev pub eq_option : (T → T → Bool) → Option T → Option T → Bool
  eq_option eq (some a) (some b) = eq a b
  eq_option eq none none = true
  eq_option eq _ _ = false

  slices_eq : (T → T → Bool) → List (Option T) → List (Option T) → Bool
  unfolding eq_option
  slices_eq eq [] [] = true
  slices_eq eq (x ∷ xs) (y ∷ ys) = eq_option eq x y && slices_eq eq xs ys
  slices_eq eq _ _ = false

  unfoldable pub equal : (T → T → Bool) → IndexMap T → IndexMap T → Bool
  unfolding slices_eq
  equal eq m n =
      if not (m.len == n.len)
      then false
      else (let smallest_len = min (length m.entries) (length n.entries) in
          slices_eq eq (take smallest_len m.entries) (take smallest_len n.entries))

  unfoldable pub from_iter : List (ℕ × T) → IndexMap T → IndexMap T
  from_iter [] map = map
  from_iter ((idx, value) ∷ iter) map = from_iter iter (insert map idx value).0

-- `IntoIter` and `Iter`, over what the inner iterator has left.
pub record Iter (T : Type 0) : Type 0 where
  pub next_idx : ℕ
  pub remaining_len : ℕ
  pub iter : List (Option T)

abbrev out_of_order : Option ℕ → ℕ → Bool
out_of_order (some prev) idx = leb idx prev
out_of_order none idx = false

module _ {T : Type 0} where
  unfoldable pub into_iter : IndexMap T → Iter T
  into_iter m = record { next_idx = 0; remaining_len = m.len; iter = m.entries }

  -- The inner loop of `next`. `next_idx` is a `u32`, which wraps.
  next_entry : ℕ → ℕ → List (Option T) → Option ((ℕ × T) × Iter T)
  next_entry next_idx remaining_len [] = none
  next_entry next_idx remaining_len (some value ∷ rest) = some (
    (next_idx, value),
    record { next_idx = (next_idx + 1) % 2 ^ 32; remaining_len = remaining_len - 1; iter = rest },
  )
  next_entry next_idx remaining_len (none ∷ rest) =
      next_entry ((next_idx + 1) % 2 ^ 32) remaining_len rest

  unfoldable pub next : Iter T → Option ((ℕ × T) × Iter T)
  unfolding next_entry
  next it = if it.remaining_len == 0 then none else next_entry it.next_idx it.remaining_len it.iter

  -- `for (idx, value) in self`, with fuel for the calls of `next`.
  unfoldable pub collect : ℕ → Iter T → List (ℕ × T)
  collect zero it = []
  collect (suc fuel) it = elim (next it) [ none ↦ [] | some (item, it') ↦ item ∷ collect fuel it' ]

  -- `for (idx, value) in self` of `serialize`.
  unfoldable pub serialize_items : (T → Written) → List (ℕ × T) → Written
  serialize_items s [] = ok []
  serialize_items s ((idx, value) ∷ items) =
      VarUint32.serialize idx ⊹ s value ⊹ serialize_items s items

  -- A map has no more items than entries.
  unfoldable pub serialize : (T → Written) → IndexMap T → Written
  unfolding serialize_items collect
  serialize s m =
      VarUint32.serialize_usize m.len ⊹ serialize_items s (collect (length m.entries) (into_iter m))

  -- The loop of `deserialize_with`, over `prev_idx` and `map`.
  unfoldable pub deserialize_items :
      ℕ → (ℕ → Reader T) → ℕ → Option ℕ → IndexMap T → Reader (IndexMap T)
  unfolding out_of_order
  deserialize_items max_entry_space f zero prev_idx map = pure map
  deserialize_items max_entry_space f (suc count) prev_idx map = do
    idx ← VarUint32.deserialize
    if leb max_entry_space idx
        then fail (other "index is larger than expected")
        else (if out_of_order prev_idx idx then fail (other "indices are out of order") else (do
          val ← f idx
          deserialize_items max_entry_space f count (some idx) (insert map idx val).0))

  unfoldable pub deserialize_with : ℕ → (ℕ → Reader T) → Reader (IndexMap T)
  unfolding deserialize_items
  deserialize_with max_entry_space f = do
    len ← VarUint32.deserialize
    deserialize_items max_entry_space f len none (with_capacity len)

  unfoldable pub deserialize : ℕ → Reader T → Reader (IndexMap T)
  deserialize max_entry_space d = deserialize_with max_entry_space (λ _. d)
