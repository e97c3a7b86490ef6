-- ===== src/Elements/Module/Codec.antt =====
-- src/elements/module.rs: `Module::deserialize` and `Module::serialize`.
use parity_wasm.Base.{
  ℕ, zero, suc, ◌==◌, ltb, not, ◌&&◌, if◌then◌else◌, Bool, true, false, List, [], ◌∷◌, ok, err,
  panic, out_of_fuel, length, Outcome,
}
use parity_wasm.Elements.Error.{
  is_eof, Error, invalid_magic, unsupported_version, sections_out_of_order, duplicated_sections,
  inconsistent_code,
}
use parity_wasm.Elements.Codec.{Bytes, Reader, ◌>>=◌, pure, fail, read, Written, ◌⊹◌}
use parity_wasm.Elements.Primitives.ByteOrder.{LittleEndian}
use parity_wasm.Elements.Primitives.Uint32
use parity_wasm.Elements.Section as Section
use parity_wasm.Elements.Section.{Section, section_id}
use parity_wasm.Elements.Module.{
  Module, wasm_magic_number, code_section, function_section, count_of, first,
}

abbrev pub same_bytes : Bytes → Bytes → Bool
same_bytes [] [] = true
same_bytes (a ∷ as') (b ∷ bs) = a == b && same_bytes as' bs
same_bytes _ _ = false

-- A round of the loop on what was read in it, `more` being the rounds that follow. The error that
-- ends the loop stands for an input of which nothing is left.
unfoldable pub take_section :
    (ℕ → Reader (List Section))
    → ℕ
    → Outcome Error (Section × Bytes)
    → Outcome Error (List Section × Bytes)
take_section more last_section_id (ok (section, src)) =
    let id = section_id section in
    let push = λ (last : ℕ).
      (do sections ← more last; let all : List Section = section ∷ sections; pure all) src in
    if not (id == 0)
    then (if ltb id last_section_id
        then err sections_out_of_order
        else (if last_section_id == id then err (duplicated_sections last_section_id) else push id))
    else push last_section_id
take_section more last_section_id (err e) = if is_eof e then ok ([], []) else err e
take_section more last_section_id panic = panic
take_section more last_section_id out_of_fuel = out_of_fuel

module _ (le : LittleEndian) where
  -- The loop, over `last_section_id`, with fuel for its rounds.
  unfoldable pub sections_loop : ℕ → ℕ → Reader (List Section)
  unfolding take_section
  sections_loop zero last_section_id = λ _. out_of_fuel
  sections_loop (suc fuel) last_section_id =
      λ src. take_section (sections_loop fuel) last_section_id (Section.deserialize le src)

  -- The last test, of the number of bodies against that of functions.
  unfoldable pub module_of : ℕ → ℕ → List Section → Reader Module
  unfolding first
  module_of magic version sections =
      let m : Module = record { magic = magic; version = version; sections = sections } in
      if not (count_of (code_section m) == count_of (function_section m))
      then fail inconsistent_code
      else pure m

  -- Every round reads a byte or ends the loop.
  unfoldable pub all_sections : Reader (List Section)
  unfolding sections_loop
  all_sections src = sections_loop (suc (length src)) 0 src

  unfoldable pub deserialize : Reader Module
  unfolding all_sections module_of
  deserialize = do
    magic ← read 4
    if not (same_bytes magic wasm_magic_number) then fail invalid_magic else (do
      version ← Uint32.deserialize le
      if not (version == 1)
          then fail (unsupported_version version)
          else (do sections ← all_sections; module_of (le.read_u32 magic) version sections))

  unfoldable pub serialize_sections : List Section → Written
  serialize_sections [] = ok []
  serialize_sections (s ∷ ss) = Section.serialize le s ⊹ serialize_sections ss

  unfoldable pub serialize : Module → Written
  unfolding serialize_sections
  serialize m =
      Uint32.serialize le m.magic ⊹ Uint32.serialize le m.version ⊹ serialize_sections m.sections
