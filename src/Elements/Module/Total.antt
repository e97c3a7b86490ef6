-- ===== src/Elements/Module/Total.antt =====
-- Any bytes are read to their end as a module, or refused.
use parity_wasm.Base.{
  ℕ, zero, suc, ◌<◌, ◌≡◌, refl, Bool, false, true, not, ◌==◌, ltb, if◌then◌else◌, List, [], ◌∷◌,
  length, Outcome, ok, err, panic, out_of_fuel, arith, Bool-cases, inl, inr,
}
use parity_wasm.Elements.Error.{Error, is_eof}
use parity_wasm.Elements.Codec.{Bytes, Reader, read, pure, fail, after, ◌>>=◌}
use parity_wasm.Elements.Total.{Ends, IsTotal, returned, refused, read-IsTotal}
use parity_wasm.Elements.Primitives.ByteOrder.{LittleEndian}
use parity_wasm.Elements.Primitives.Uint32.{Uint32-IsTotal}
use parity_wasm.Elements.Section.{Section, section_id}
use parity_wasm.Elements.Section.Total.{section-Ends}
use parity_wasm.Elements.Section.RoundTrip.{nothing_left}
use parity_wasm.Elements.Module.{Module, count_of, code_section, function_section}
use parity_wasm.Elements.Module.Codec.{
  take_section, sections_loop, module_of, all_sections, deserialize,
}

-- All the input is read, or an error is returned that is not `UnexpectedEof`.
pub data Settles {A : Type 0} : Outcome Error (A × Bytes) → Type 0 where
  whole : {a : A} → Settles (ok (a, []))
  stopped : {e : Error} → is_eof e ≡ false → Settles (err e)

record ReadsAll {A : Type 0} (d : Reader A) : Type 0 where
  at : (src : Bytes) → Settles (d src)

module _ {A : Type 0} where
  Settles-if :
      (b : Bool) {x y : Outcome Error (A × Bytes)}
      → Settles x
      → Settles y
      → Settles (if b then x else y)
  Settles-if true h h' = h
  Settles-if false h h' = h'

  ReadsAll-fail : (e : Error) → is_eof e ≡ false → ReadsAll {A = A} (fail e)
  ReadsAll-fail e h = record { at = λ src. stopped h }

  ReadsAll-if :
      (b : Bool) (d d' : Reader A) → ReadsAll d → ReadsAll d' → ReadsAll (if b then d else d')
  ReadsAll-if true d d' h h' = h
  ReadsAll-if false d d' h h' = h'

module _ {A B : Type 0} where
  Settles-map :
      {o : Outcome Error (A × Bytes)} (f : A → B) → Settles o → Settles (after o (λ a. pure (f a)))
  Settles-map f whole = whole
  Settles-map f (stopped h) = stopped h

  Settles-whole :
      {o : Outcome Error (A × Bytes)} (f : A → Reader B)
      → Settles o
      → ((a : A) → Settles (f a []))
      → Settles (after o f)
  Settles-whole f (whole {a}) t = t a
  Settles-whole f (stopped h) t = stopped h

  Settles-after :
      {k n : ℕ} {o : Outcome Error (A × Bytes)} (f : A → Reader B)
      → Ends k n o
      → ((a : A) → ReadsAll (f a))
      → Settles (after o f)
  Settles-after f (returned {a} {rest} h) t = (t a).at rest
  Settles-after f (refused h) t = stopped h

  ReadsAll-bind :
      (d : Reader A) (f : A → Reader B)
      → IsTotal d
      → ((a : A) → ReadsAll (f a))
      → ReadsAll (d >>= f)
  ReadsAll-bind d f h t = record { at = λ src. Settles-after f (h.at src) t }

module _ (more : ℕ → Reader (List Section)) where
  take_section-Settles :
      {n : ℕ} (last : ℕ) (o : Outcome Error (Section × Bytes))
      → Ends 1 n o
      → ((k : ℕ) (src : Bytes) → length src < n → Settles (more k src))
      → Settles (take_section more last o)
  unfolding take_section
  take_section-Settles last (ok (s, src)) (returned h) t =
      let push = λ (k : ℕ). Settles-map (λ ss. s ∷ ss) (t k src (omega (arith, h))) in
      Settles-if (not (section_id s == 0))
        (Settles-if (ltb (section_id s) last) (stopped refl)
          (Settles-if (last == section_id s) (stopped refl) (push (section_id s))))
        (push last)
  take_section-Settles last (err e) (refused h) t = rw h (stopped h)
  take_section-Settles last panic h t = elim h [ ]
  take_section-Settles last out_of_fuel h t = elim h [ ]

module _ (le : LittleEndian) where
  sections_loop-Settles :
      (fuel last : ℕ) (src : Bytes) → length src < fuel → Settles (sections_loop le fuel last src)
  unfolding sections_loop take_section
  sections_loop-Settles zero last src h = absurd (omega arith)
  sections_loop-Settles (suc fuel) last [] h = rw (nothing_left le) whole
  sections_loop-Settles (suc fuel) last (b ∷ src) h =
      take_section-Settles (sections_loop le fuel) last _ (section-Ends le b src)
        (λ k. λ rest. λ shorter. sections_loop-Settles fuel k rest (omega (arith, shorter, h)))

  module_of-Settles :
      (magic version : ℕ) (sections : List Section)
      → Settles (module_of le magic version sections [])
  unfolding module_of
  module_of-Settles magic version sections =
      let m : Module = record { magic = magic; version = version; sections = sections } in
      let odd = not (count_of (code_section m) == count_of (function_section m)) in
      elim (Bool-cases odd) [ inl e ↦ rw e (stopped refl) | inr e ↦ rw e whole ]

  sections-ReadsAll :
      (magic version : ℕ)
      → ReadsAll (all_sections le >>= λ sections. module_of le magic version sections)
  unfolding all_sections
  sections-ReadsAll magic version = record {
    at = λ src.
        Settles-whole _ (sections_loop-Settles (suc (length src)) 0 src (omega arith))
          (module_of-Settles magic version);
  }

  deserialize-ReadsAll : ReadsAll (deserialize le)
  unfolding deserialize
  deserialize-ReadsAll = ReadsAll-bind (read 4) _ (read-IsTotal 4) (λ magic.
      search
        (
          ReadsAll-bind,
          ReadsAll-if,
          ReadsAll-fail,
          refl,
          read-IsTotal,
          Uint32-IsTotal le,
          sections-ReadsAll,
        )
        depth 14)

  -- Any bytes are read to their end as a module, or refused with an error other than `UnexpectedEof`:
  -- reading a module neither panics nor runs out of the model's fuel.
  pub deserialize-Settles : (src : Bytes) → Settles (deserialize le src)
  deserialize-Settles = deserialize-ReadsAll.at
