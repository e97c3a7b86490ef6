-- ===== src/Elements/Module/Peek.antt =====
-- src/elements/module.rs: `peek_size`.
pub mod Bounds
pub mod Frames
use parity_wasm.Base.{
  ℕ, zero, suc, ◌+◌, ◌-◌, ◌&&◌, ltb, leb, ◌==◌, if◌then◌else◌, ok, err, panic, out_of_fuel, length,
  drop, Outcome,
}
use parity_wasm.Elements.Error.{Error}
use parity_wasm.Elements.Codec.{Bytes}
use parity_wasm.Elements.Primitives.VarUint7
use parity_wasm.Elements.Primitives.VarUint32

-- `PeekSection` stands for the bytes of its region that follow its cursor.
module _ (source : Bytes) where
  -- The end of a round at `cursor`, which has read an id and a length and left `rest`.
  unfoldable pub advance : (ℕ → Outcome Error ℕ) → ℕ → ℕ → ℕ → Bytes → Outcome Error ℕ
  advance more cursor section_id section_len rest =
      let new_cursor = length (drop cursor source) - length rest in
      let next_cursor = cursor + new_cursor + section_len in
      if leb section_id 11 && ltb 0 section_len
      then (if ltb (length source) next_cursor
          then ok cursor
          else (if next_cursor == length source then ok next_cursor else more next_cursor))
      else ok cursor

  -- The length after the id, if it can be read.
  unfoldable pub peek_len :
      (ℕ → Outcome Error ℕ) → ℕ → ℕ → Outcome Error (ℕ × Bytes) → Outcome Error ℕ
  unfolding advance
  peek_len more cursor section_id (ok (section_len, rest)) =
      advance more cursor section_id section_len rest
  peek_len more cursor section_id (err _) = ok cursor
  peek_len more cursor section_id panic = panic
  peek_len more cursor section_id out_of_fuel = out_of_fuel

  unfoldable pub peek_id : (ℕ → Outcome Error ℕ) → ℕ → Outcome Error (ℕ × Bytes) → Outcome Error ℕ
  unfolding peek_len
  peek_id more cursor (ok (section_id, rest)) =
      peek_len more cursor section_id (VarUint32.deserialize rest)
  peek_id more cursor (err _) = ok cursor
  peek_id more cursor panic = panic
  peek_id more cursor out_of_fuel = out_of_fuel

  -- The loop, over `cursor`, with fuel for its rounds.
  unfoldable pub peek_loop : ℕ → ℕ → Outcome Error ℕ
  unfolding peek_id
  peek_loop zero cursor = out_of_fuel
  peek_loop (suc fuel) cursor =
      peek_id (peek_loop fuel) cursor (VarUint7.deserialize (drop cursor source))

  -- Every round moves the cursor, and not past the end.
  unfoldable pub peek_size : Outcome Error ℕ
  unfolding peek_loop
  peek_size = if ltb (length source) 9 then ok 0 else peek_loop (length source) 8
