-- ===== src/Elements/Module/RoundTrip.antt =====
-- A module of readable sections is read back as it was.
use parity_wasm.Base.{
  ℕ, suc, ◌+◌, ◌-◌, ◌≤◌, ◌<◌, ◌≡◌, refl, true, false, List, [], ◌∷◌, ◌++◌, ok, length, All, arith,
  length-append, suc-add, ◌==◌, ltb,
}
use parity_wasm.Elements.Codec.{Bytes, Reads, read-Reads}
use parity_wasm.Elements.Primitives.ByteOrder.{LittleEndian}
use parity_wasm.Elements.Primitives.Uint32
use parity_wasm.Elements.Section as Section
use parity_wasm.Elements.Section.{Section, section_id}
use parity_wasm.Elements.Section.RoundTrip.{IsReadable, Section-Restores, nonempty, nothing_left}
use parity_wasm.Elements.Module.{
  Module, wasm_magic_number, code_section, function_section, count_of,
}
use parity_wasm.Elements.Module.Codec.{
  take_section, sections_loop, module_of, all_sections, deserialize, serialize, serialize_sections,
}
use parity_wasm.Elements.Module.Order.{IsOrdered, none_left, anywhere, ascending, IsValid}

module _ (le : LittleEndian) where
  zero_add : (n : ℕ) → 0 + n ≡ n
  zero_add n = omega arith

  end_of_sections : (fuel last : ℕ) → sections_loop le (suc fuel) last [] ≡ ok ([], [])
  unfolding sections_loop take_section
  end_of_sections fuel last = rw (nothing_left le) refl

  anonymous_round :
      (fuel last : ℕ) (s : Section) (ss : List Section) (bs cs : Bytes)
      → Reads (Section.deserialize le) bs s
      → section_id s ≡ 0
      → sections_loop le fuel last cs ≡ ok (ss, [])
      → sections_loop le (suc fuel) last (bs ++ cs) ≡ ok (s ∷ ss, [])
  unfolding sections_loop take_section
  anonymous_round fuel last s ss bs cs r e q = rw (r cs, e, q) refl

  ascending_round :
      (fuel last : ℕ) (s : Section) (ss : List Section) (bs cs : Bytes)
      → Reads (Section.deserialize le) bs s
      → last < section_id s
      → sections_loop le fuel (section_id s) cs ≡ ok (ss, [])
      → sections_loop le (suc fuel) last (bs ++ cs) ≡ ok (s ∷ ss, [])
  unfolding sections_loop take_section
  ascending_round fuel last s ss bs cs r h q =
      let named : (section_id s == 0) ≡ false = ground arith in
      let high : ltb (section_id s) last ≡ false = ground arith in
      let other : (last == section_id s) ≡ false = ground arith in
      rw (r cs, named, high, other, q) refl

  sections-Restores :
      (last : ℕ) (ss : List Section)
      → IsOrdered last ss
      → All (IsReadable le) ss
      → (bs : Bytes) × (serialize_sections le ss ≡ ok bs)
        × (length ss ≤ length bs)
        × ((fuel : ℕ) → sections_loop le (length ss + suc fuel) last bs ≡ ok (ss, []))
  unfolding serialize_sections
  sections-Restores last [] none_left h =
      ([], refl, omega arith, λ fuel. rw (zero_add (suc fuel)) (end_of_sections fuel last))
  sections-Restores last (s ∷ ss) (anywhere e o) (h, hs) =
      let r = Section-Restores le s h in
      let (bs, w, len, loop) = sections-Restores last ss o hs in
      let some_bytes = nonempty le s r.bytes r.reads in
      (
        r.bytes ++ bs,
        rw (r.written, w) refl,
        omega (arith, length-append r.bytes bs, some_bytes, len),
        λ fuel.
            rw (suc-add (length ss) (suc fuel))
              (anonymous_round (length ss + suc fuel) last s ss r.bytes bs r.reads e (loop fuel)),
      )
  sections-Restores last (s ∷ ss) (ascending e o) (h, hs) =
      let r = Section-Restores le s h in
      let (bs, w, len, loop) = sections-Restores (section_id s) ss o hs in
      let some_bytes = nonempty le s r.bytes r.reads in
      (
        r.bytes ++ bs,
        rw (r.written, w) refl,
        omega (arith, length-append r.bytes bs, some_bytes, len),
        λ fuel.
            rw (suc-add (length ss) (suc fuel))
              (ascending_round (length ss + suc fuel) last s ss r.bytes bs r.reads e (loop fuel)),
      )

  module_of-IsValid :
      (m : Module) (magic version : ℕ) (src : Bytes)
      → m.magic ≡ magic
      → m.version ≡ version
      → IsValid m
      → module_of le magic version m.sections src ≡ ok (m, src)
  unfolding module_of
  module_of-IsValid m magic version src e e' v =
      let same : (count_of (code_section m) == count_of (function_section m)) ≡ true =
        ground (arith, v.consistent) in
      rw (← e, ← e', same) refl

  magic_written : Uint32.serialize le (le.read_u32 wasm_magic_number) ≡ ok wasm_magic_number
  unfolding Uint32.serialize
  magic_written =
      rw
        (le.write_u32-read_u32 wasm_magic_number refl
          (omega arith, (omega arith, (omega arith, (omega arith, tt)))))
        refl

  -- A module of the magic number and the version 1 is written, and read back with nothing left: its
  -- sections are readable, their ids other than 0 ascend, and it has as many bodies as functions.
  pub module_round_trip :
      (m : Module)
      → m.magic ≡ le.read_u32 wasm_magic_number
      → IsValid m
      → All (IsReadable le) m.sections
      → (bs : Bytes) × (serialize le m ≡ ok bs) × (deserialize le bs ≡ ok (m, []))
  unfolding serialize deserialize all_sections
  module_round_trip m magic v h =
      let ver = Uint32.Uint32-Restores le 1 (omega arith) in
      let (bs, w, len, loop) = sections-Restores 0 m.sections v.in_order h in
      let fuel : length m.sections + suc (length bs - length m.sections) ≡ suc (length bs) =
        omega (arith, len) in
      let all : sections_loop le (suc (length bs)) 0 bs ≡ ok (m.sections, []) =
        rw fuel at (loop (length bs - length m.sections)) in
      let made : module_of le (le.read_u32 wasm_magic_number) 1 m.sections [] ≡ ok (m, []) =
        module_of-IsValid m _ 1 [] magic v.first_version v in
      let magic_bytes : Uint32.serialize le m.magic ≡ ok wasm_magic_number =
        rw magic magic_written in
      let version : Uint32.serialize le m.version ≡ ok ver.bytes = rw v.first_version ver.written in
      (
        wasm_magic_number ++ ver.bytes ++ bs,
        rw (magic_bytes, version, w) refl,
        rw (read-Reads wasm_magic_number (ver.bytes ++ bs), ver.reads bs, all) made,
      )
