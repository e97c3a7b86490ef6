-- ===== src/Elements/Module/Order.antt =====
-- What every module that was read satisfies.
use parity_wasm.Base.{
  ℕ, zero, suc, ◌<◌, ◌≡◌, ◌==◌, ltb, Bool-cases, inl, inr, List, [], ◌∷◌, ok, err, panic,
  out_of_fuel, Outcome, arith, length, ==_iff, subst,
}
use parity_wasm.Elements.Error.{Error, is_eof}
use parity_wasm.Elements.Codec.{Bytes, Reader, ◌>>=◌, pure, after-eq-ok, read}
use parity_wasm.Elements.Primitives.ByteOrder.{LittleEndian}
use parity_wasm.Elements.Primitives.Uint32
use parity_wasm.Elements.Section as Section
use parity_wasm.Elements.Section.{Section, section_id}
use parity_wasm.Elements.Module.{
  Module, wasm_magic_number, code_section, function_section, count_of,
}
use parity_wasm.Elements.Module.Codec.{
  take_section, sections_loop, module_of, all_sections, deserialize, same_bytes,
}

-- The ids other than 0 ascend, from above `last`; sections of id 0 stand anywhere.
pub data IsOrdered : ℕ → List Section → Type 0 where
  none_left : {last : ℕ} → IsOrdered last []
  anywhere :
      {last : ℕ} {s : Section} {ss : List Section}
      → section_id s ≡ 0
      → IsOrdered last ss
      → IsOrdered last (s ∷ ss)
  ascending :
      {last : ℕ} {s : Section} {ss : List Section}
      → last < section_id s
      → IsOrdered (section_id s) ss
      → IsOrdered last (s ∷ ss)

pub record IsValid (m : Module) : Type 0 where
  pub first_version : m.version ≡ 1
  pub in_order : IsOrdered 0 m.sections
  pub consistent : count_of (code_section m) ≡ count_of (function_section m)

module _ (more : ℕ → Reader (List Section)) where
  -- What `more` makes of the rest is behind the section.
  pushed :
      (s : Section) (k : ℕ) (src : Bytes) {ss : List Section} {rest : Bytes}
      → (do sections ← more k; let all : List Section = s ∷ sections; pure all) src ≡ ok (ss, rest)
      → (tail : List Section) × (left : Bytes) × (more k src ≡ ok (tail, left)) × (s ∷ tail ≡ ss)
  pushed s k src e = let (tail, left, r, g) = after-eq-ok (more k src) _ e in (tail, left, r, cc g)

  take_section-IsOrdered :
      (last : ℕ) (o : Outcome Error (Section × Bytes)) {ss : List Section} {rest : Bytes}
      → ((k : ℕ) (src : Bytes) (ss : List Section) (rest : Bytes)
          → more k src ≡ ok (ss, rest)
          → IsOrdered k ss)
      → take_section more last o ≡ ok (ss, rest)
      → IsOrdered last ss
  unfolding take_section
  take_section-IsOrdered last (ok (s, src)) {ss} {rest} ih e =
      let id = section_id s in
      elim (Bool-cases (id == 0)) [
        | inl anon ↦
            let (tail, left, r, same) = pushed s last src (rw anon at e) in
            subst (IsOrdered last) same (anywhere ((==_iff id 0).0 anon) (ih last src tail left r))
        | inr named ↦ elim (Bool-cases (ltb id last)) [
          | inl low ↦ cc (rw (named, low) at e)
          | inr high ↦ elim (Bool-cases (last == id)) [
            | inl equal ↦ cc (rw (named, high, equal) at e)
            | inr other ↦
                let (tail, left, r, same) = pushed s id src (rw (named, high, other) at e) in
                subst (IsOrdered last) same (ascending (ground arith) (ih id src tail left r))
          ]
        ]
      ]
  take_section-IsOrdered last (err x) {ss} {rest} ih e = elim (Bool-cases (is_eof x)) [
    | inl eof ↦
        let none : ok ([], []) ≡ ok (ss, rest) = rw eof at e in
        subst (IsOrdered last) (cc none) none_left
    | inr other ↦ cc (rw other at e)
  ]
  take_section-IsOrdered last panic ih e = cc e
  take_section-IsOrdered last out_of_fuel ih e = cc e

module _ (le : LittleEndian) where
  sections_loop-IsOrdered :
      (fuel last : ℕ) (src : Bytes) (ss : List Section) (rest : Bytes)
      → sections_loop le fuel last src ≡ ok (ss, rest)
      → IsOrdered last ss
  unfolding sections_loop
  sections_loop-IsOrdered zero last src ss rest e = cc e
  sections_loop-IsOrdered (suc fuel) last src ss rest e =
      take_section-IsOrdered (sections_loop le fuel) last (Section.deserialize le src)
        (sections_loop-IsOrdered fuel) e

  module_of-IsValid :
      (magic version : ℕ) (ss : List Section) (src : Bytes) {m : Module} {rest : Bytes}
      → version ≡ 1
      → IsOrdered 0 ss
      → module_of le magic version ss src ≡ ok (m, rest)
      → IsValid m
  unfolding module_of
  module_of-IsValid magic version ss src {m} {rest} v o e =
      let n : Module = record { magic = magic; version = version; sections = ss } in
      let same = λ (k : ℕ). λ (l : ℕ). ((==_iff k l).0) in
      elim (Bool-cases (count_of (code_section n) == count_of (function_section n))) [
        | inl equal ↦
            let made : ok (n, src) ≡ ok (m, rest) = rw equal at e in
            let this : n ≡ m = cc made in
            subst IsValid this
              (record { first_version = v; in_order = o; consistent = same _ _ equal })
        | inr differ ↦ cc (rw differ at e)
      ]

  -- A module that was read, off any bytes, has the version 1, sections of which the ids other than 0
  -- ascend strictly, and as many bodies as functions.
  pub deserialize-IsValid :
      (src : Bytes) {m : Module} {rest : Bytes} → deserialize le src ≡ ok (m, rest) → IsValid m
  unfolding deserialize all_sections
  deserialize-IsValid src e =
      let (magic, after_magic, r, f) = after-eq-ok (read 4 src) _ e in
      elim (Bool-cases (same_bytes magic wasm_magic_number)) [
        | inl good ↦
            let (version, after_version, r', g) =
              after-eq-ok (Uint32.deserialize le after_magic) _ (rw good at f) in
            elim (Bool-cases (version == 1)) [
              | inl first_version ↦
                  let (sections, left, r'', last) =
                    after-eq-ok (all_sections le after_version) _ (rw first_version at g) in
                  module_of-IsValid _ version sections left ((==_iff version 1).0 first_version)
                    (sections_loop-IsOrdered (suc (length after_version)) 0 after_version sections
                      left r'')
                    last
              | inr v ↦ cc (rw v at g)
            ]
        | inr bad ↦ cc (rw bad at f)
      ]
