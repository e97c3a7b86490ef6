-- ===== src/Builder/Module/Push.antt =====
-- Where `push_function` puts a function.
use parity_wasm.Base.{
  ℕ, suc, ◌+◌, ◌-◌, ◌%◌, ◌^◌, ◌<◌, ◌≡◌, refl, ap, ap₂, ◌∙◌, ◌==◌, ==_iff, ◌&&◌, Bool, true, false,
  Bool-cases, inl, inr, List, [], ◌∷◌, ◌++◌, Option, none, some, ok, length, length-append,
  get_elem?, arith,
}
use parity_wasm.Elements.Types.{
  TypeEntry, function, FunctionType, ValueType, i32, i64, f32, f64, v128,
}
use parity_wasm.Elements.Func.{Func}
use parity_wasm.Builder.Module.{
  ModuleScaffold, Signature, type_reference, inline, FunctionDefinition, CodeLocation, find_type,
  last_index, resolve_type_ref, push_function, same_function_type, same_params, same_return,
  same_value_type, main_or,
}

and-parts : (a b : Bool) → (a && b) ≡ true → (a ≡ true) × (b ≡ true)
and-parts true b e = (refl, e)
and-parts false b e = cc e

value_type-eq : (a b : ValueType) → same_value_type a b ≡ true → a ≡ b
value_type-eq i32 i32 e = refl
value_type-eq i64 i64 e = refl
value_type-eq f32 f32 e = refl
value_type-eq f64 f64 e = refl
value_type-eq v128 v128 e = refl
value_type-eq a b e = cc e

params-eq : (as' bs : List ValueType) → same_params as' bs ≡ true → as' ≡ bs
params-eq [] [] e = refl
params-eq (a ∷ as') (b ∷ bs) e =
    let (h, hs) = and-parts (same_value_type a b) (same_params as' bs) e in
    ap₂ (λ x xs. x ∷ xs) (value_type-eq a b h) (params-eq as' bs hs)
params-eq [] (b ∷ bs) e = cc e
params-eq (a ∷ as') [] e = cc e

return-eq : (a b : Option ValueType) → same_return a b ≡ true → a ≡ b
return-eq none none e = refl
return-eq (some a) (some b) e = ap some (value_type-eq a b e)
return-eq none (some b) e = cc e
return-eq (some a) none e = cc e

abbrev make : ℕ → List ValueType → Option ValueType → FunctionType
make form params return_type = record { form = form; params = params; return_type = return_type }

function_type-eq : (f g : FunctionType) → same_function_type f g ≡ true → f ≡ g
function_type-eq f g e =
    let (h, r) =
      and-parts (f.form == g.form && same_params f.params g.params)
        (same_return f.return_type g.return_type) e in
    let (n, p) = and-parts (f.form == g.form) (same_params f.params g.params) h in
    ap₂ (λ form params. make form params f.return_type) ((==_iff f.form g.form).0 n)
      (params-eq f.params g.params p)
    ∙ ap (make g.form g.params) (return-eq f.return_type g.return_type r)

find_type-some :
    (f : FunctionType) (i : ℕ) (types : List TypeEntry) {k : ℕ}
    → find_type f i types ≡ some k
    → (j : ℕ) × (k ≡ i + j) × (j < length types) × (get_elem? types j ≡ some (function f))
unfolding find_type
find_type-some f i [] e = cc e
find_type-some f i (function g ∷ types) {k} e = elim (Bool-cases (same_function_type g f)) [
  | inl same ↦
      let here : some i ≡ some k = rw same at e in
      let at_i : i ≡ k = cc here in
      (0, omega (arith, at_i), omega arith, ap (λ t. some (function t)) (function_type-eq g f same))
  | inr other ↦
      let (j, at_k, lt, there) = find_type-some f (i + 1) types (rw other at e) in
      (suc j, omega (arith, at_k), omega (arith, lt), there)
]

last_index_lem : (n : ℕ) → 0 < n → n < 2 ^ 32 → last_index n ≡ ok (n - 1)
unfolding last_index
last_index_lem n h k = ground arith

get_elem-last : {A : Type 0} (xs : List A) (x : A) → get_elem? (xs ++ x ∷ []) (length xs) ≡ some x
get_elem-last [] x = refl
get_elem-last (y ∷ xs) x = get_elem-last xs x

-- The reference is that of the signature: the given one, or one to an equal type.
abbrev pub Denotes : Signature → ℕ → List TypeEntry → Type 0
Denotes (type_reference i) t types = i ≡ t
Denotes (inline f) t types = get_elem? types t ≡ some (function f)

resolve_type_ref_lem :
    (s : Signature) (m : ModuleScaffold)
    → length m.types + 1 < 2 ^ 32
    → (t : ℕ) × (types : List TypeEntry) × (resolve_type_ref s m
        ≡ ok (t, record m { types = types }))
      × Denotes s t types
unfolding resolve_type_ref
resolve_type_ref_lem (type_reference i) m h = (i, m.types, refl, refl)
resolve_type_ref_lem (inline f) m h = by_find (find_type f 0 m.types) refl
  where
    by_find :
        (o : Option ℕ)
        → find_type f 0 m.types ≡ o
        → (t : ℕ) × (types : List TypeEntry) × (resolve_type_ref (inline f) m
            ≡ ok (t, record m { types = types }))
          × (get_elem? types t ≡ some (function f))
    by_find (some k) e =
        let (j, at_k, lt, there) = find_type-some f 0 m.types e in
        let small : k % 2 ^ 32 ≡ j = omega (arith, at_k, lt, h) in
        (k % 2 ^ 32, m.types, rw (e, resolve_type_ref) refl, rw small there)
    by_find none e =
        let more = m.types ++ function f ∷ [] in
        let len = length-append m.types (function f ∷ []) in
        let last = last_index_lem (length more) (omega (arith, len)) (omega (arith, len, h)) in
        let at_end : length more - 1 ≡ length m.types = omega (arith, len) in
        (
          length m.types,
          more,
          rw (e, resolve_type_ref) (rw (last, at_end) refl),
          get_elem-last m.types (function f),
        )

-- `push_function` puts a function and its body at the end of their lists, of equal length, and returns
-- their indices. Its type is the referenced one, or for a type inline one that is equal to it. The
-- lists stay shorter than 32 bits count.
pub push_function_lem :
    (func : FunctionDefinition) (m : ModuleScaffold)
    → length m.code ≡ length m.functions
    → length m.types + 1 < 2 ^ 32
    → length m.functions + 1 < 2 ^ 32
    → (t : ℕ) × (at : CodeLocation) × (m' : ModuleScaffold) × (push_function func m ≡ ok (at, m'))
      × (m'.functions ≡ m.functions ++ record { type_ref = t } ∷ [])
      × (at.signature_index ≡ length m.functions)
      × (m'.code ≡ m.code ++ func.body ∷ [])
      × (at.body_index ≡ length m.code)
      × Denotes func.signature t m'.types
unfolding push_function
push_function_lem func m same few_types few =
    let (t, types, resolved, denotes) = resolve_type_ref_lem func.signature m few_types in
    let functions : List Func = m.functions ++ record { type_ref = t } ∷ [] in
    let bodies = m.code ++ func.body ∷ [] in
    let flen = length-append m.functions (record { type_ref = t } ∷ []) in
    let blen = length-append m.code (func.body ∷ []) in
    let flast =
      last_index_lem (length functions) (omega (arith, flen)) (omega (arith, flen, few)) in
    let blast =
      last_index_lem (length bodies) (omega (arith, blen)) (omega (arith, blen, same, few)) in
    let fat : length functions - 1 ≡ length m.functions = omega (arith, flen) in
    let bat : length bodies - 1 ≡ length m.code = omega (arith, blen) in
    let at : CodeLocation = record {
      signature_index = length functions - 1;
      body_index = length bodies - 1;
    } in
    let m' : ModuleScaffold = record m {
      types = types;
      functions = functions;
      code = bodies;
      start = main_or func.is_main (length bodies - 1) m.start;
    } in
    (t, at, m', rw resolved (rw (flast, blast) refl), refl, fat, refl, bat, denotes)
