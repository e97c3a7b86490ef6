-- ===== src/Elements/Func/RoundTrip.antt =====
-- Function bodies are read back from what was written, if their locals can be counted in 32 bits.
use parity_wasm.Base.{
  ℕ, ◌+◌, ◌≤◌, ◌<◌, ◌^◌, ◌≡◌, refl, ap, ltb, Bool-cases, inl, inr, ltb→lt, lt→ltb, List, [], ◌∷◌,
  ◌++◌, none, some, length, All, arith,
}
use parity_wasm.Elements.Codec.{Restores, Restores-bind, Restores-map}
use parity_wasm.Elements.Types.RoundTrip.{ValueType-Restores}
use parity_wasm.Elements.Primitives.ByteOrder.{LittleEndian}
use parity_wasm.Elements.Primitives.VarUint32
use parity_wasm.Elements.Primitives.CountedList
use parity_wasm.Elements.Section.SectionReader.{in_section-Restores, IsShort}
use parity_wasm.Elements.Ops.{Instruction, end_op}
use parity_wasm.Elements.Ops.RoundTrip.Readable.{IsReadable}
use parity_wasm.Elements.Ops.Blocks as Blocks
use parity_wasm.Elements.Ops.Blocks.{deserialize_instructions}
use parity_wasm.Elements.Ops.Blocks.RoundTrip.{IsSequence, Instructions-Restores}
use parity_wasm.Elements.Func.{
  Func, Local, FuncBody, serialize_func, deserialize_func, serialize_local, deserialize_local,
  add_counts, deserialize_body, deserialize_func_body, serialize_body, serialize_func_body,
}

pub Func-Restores :
    (f : Func) → VarUint32.IsU32 f.type_ref → Restores (serialize_func f) deserialize_func f
unfolding serialize_func deserialize_func
Func-Restores f h = Restores-map _ (VarUint32.serialize_u32-Restores f.type_ref h) (λ rest. refl)

pub Local-Restores :
    (l : Local) → VarUint32.IsU32 l.count → Restores (serialize_local l) deserialize_local l
unfolding serialize_local deserialize_local
Local-Restores l h =
    Restores-bind _ (VarUint32.serialize_u32-Restores l.count h)
      (Restores-map _ (ValueType-Restores l.value_type) (λ rest. refl))

-- How many locals there are, of every type.
abbrev pub local_count : List Local → ℕ
local_count [] = 0
local_count (l ∷ ls) = l.count + local_count ls

add_counts-some :
    (acc : ℕ) (ls : List Local)
    → acc + local_count ls < 2 ^ 32
    → add_counts acc ls ≡ some (acc + local_count ls)
unfolding add_counts
add_counts-some acc [] h = ap some (omega arith)
add_counts-some acc (l ∷ ls) h =
    rw
      (
        lt→ltb (acc + l.count) (2 ^ 32) (omega arith),
        add_counts-some (acc + l.count) ls (omega arith),
      )
      (ap some (omega arith))

pub add_counts-none :
    (acc : ℕ) (ls : List Local)
    → acc < 2 ^ 32
    → 2 ^ 32 ≤ acc + local_count ls
    → add_counts acc ls ≡ none
unfolding add_counts
add_counts-none acc [] h k = absurd (omega arith)
add_counts-none acc (l ∷ ls) h k = elim (Bool-cases (ltb (acc + l.count) (2 ^ 32))) [
  | inl fits ↦ rw (fits, add_counts-none (acc + l.count) ls (ltb→lt _ _ fits) (omega arith)) refl
  | inr over ↦ rw over refl
]

locals-Restores :
    (ls : List Local)
    → local_count ls < 2 ^ 32
    → All (λ l. Restores (serialize_local l) deserialize_local l) ls
locals-Restores [] h = tt
locals-Restores (l ∷ ls) h = (Local-Restores l (omega arith), locals-Restores ls (omega arith))

-- A sequence of readable instructions and its `End`, in fewer locals and instructions than can be counted.
pub record IsBody (f : FuncBody) : Type 0 where
  pub few_locals : length f.locals < 2 ^ 32
  pub few_counted : local_count f.locals < 2 ^ 32
  pub sequence : List Instruction
  pub ended : f.instructions ≡ sequence ++ end_op ∷ []
  pub is_sequence : IsSequence sequence
  pub readable : All IsReadable (sequence ++ end_op ∷ [])
  pub few_instructions : length sequence + 2 < 2 ^ 64

module _ (le : LittleEndian) where
  instructions-Restores :
      (f : FuncBody)
      → IsBody f
      → Restores (Blocks.serialize le f.instructions) (deserialize_instructions le) f.instructions
  instructions-Restores f b =
      rw b.ended (Instructions-Restores le b.sequence b.is_sequence b.readable b.few_instructions)

  body-Restores : (f : FuncBody) → IsBody f → Restores (serialize_body le f) (deserialize_body le) f
  unfolding serialize_body deserialize_body
  body-Restores f b =
      Restores-bind _
        (CountedList.CountedList-Restores _ _ f.locals b.few_locals
          (locals-Restores f.locals b.few_counted))
        (rw (add_counts-some 0 f.locals (omega (arith, b.few_counted)))
          (Restores-map _ (instructions-Restores f b) (λ rest. refl)))

  -- A function body is read back, whatever follows it: its locals and their sum can be counted in 32
  -- bits, its code is a sequence of readable instructions and an `End`, and it fits a length of 32 bits.
  pub FuncBody-Restores :
      (f : FuncBody)
      → IsBody f
      → IsShort (serialize_body le f)
      → Restores (serialize_func_body le f) (deserialize_func_body le) f
  unfolding serialize_func_body deserialize_func_body
  FuncBody-Restores f b short = in_section-Restores (body-Restores f b) short
