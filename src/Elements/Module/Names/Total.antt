-- ===== src/Elements/Module/Names/Total.antt =====
-- Names and relocations are read, or refused with an error, whatever the bytes are.
use parity_wasm.Base.{
  ℕ, Bool, true, false, refl, Option, none, some, ok, err, panic, out_of_fuel, Outcome, List, [],
  ◌∷◌, if◌then◌else◌,
}
use parity_wasm.Elements.Error.{Error}
use parity_wasm.Elements.Codec.{Bytes}
use parity_wasm.Elements.Total.{IsTotal, IsTotal-fail, Ends, returned, refused, read-IsTotal}
use parity_wasm.Elements.Primitives.Total.{reader_rules}
use parity_wasm.Elements.Primitives.Text.{Text-IsTotal}
use parity_wasm.Elements.IndexMap.Total.{deserialize_with-IsTotal, deserialize-IsTotal}
use parity_wasm.Elements.Func.{Func}
use parity_wasm.Elements.NameSection.{NameSection}
use parity_wasm.Elements.RelocSection.{RelocSection}
use parity_wasm.Elements.RelocSection.Total.{reloc_section-IsTotal}
use parity_wasm.Elements.Section.{Section}
use parity_wasm.Elements.Module.{Module}
use parity_wasm.Elements.Module.Names.{
  deserialize_function_names, local_names_of, deserialize_local_names, names_of,
  deserialize_name_section, parse_name, named, parse_relocation, relocated,
}
use parity_wasm.Elements.Module.Names.Each.{IsAnswer, answered, faulted}

local_names_of-IsTotal :
    (space : ℕ) (funcs : Option (List Func)) → IsTotal (local_names_of space funcs)
unfolding local_names_of
local_names_of-IsTotal space none = IsTotal-fail _ refl
local_names_of-IsTotal space (some funcs) =
    deserialize_with-IsTotal _ _ (λ i. deserialize-IsTotal space _ Text-IsTotal)

module _ (m : Module) where
  function_names-IsTotal : IsTotal (deserialize_function_names m)
  unfolding deserialize_function_names
  function_names-IsTotal = deserialize-IsTotal _ _ Text-IsTotal

  local_names-IsTotal : IsTotal (deserialize_local_names m)
  unfolding deserialize_local_names
  local_names-IsTotal = local_names_of-IsTotal _ _

  names_of-IsTotal : (t len : ℕ) → IsTotal (names_of m t len)
  unfolding names_of
  names_of-IsTotal t len =
      search (reader_rules, function_names-IsTotal, local_names-IsTotal, read-IsTotal) depth 20

  pub name_section-IsTotal : IsTotal (deserialize_name_section m)
  unfolding deserialize_name_section
  name_section-IsTotal = search (reader_rules, names_of-IsTotal) depth 14

named-IsAnswer : (n : ℕ) (o : Outcome Error (NameSection × Bytes)) → Ends 0 n o → IsAnswer (named o)
unfolding named
named-IsAnswer n (ok (s, rest)) (returned h) = answered
named-IsAnswer n (err e) (refused h) = faulted
named-IsAnswer n panic h = elim h [ ]
named-IsAnswer n out_of_fuel h = elim h [ ]

relocated-IsAnswer :
    (n : ℕ) (o : Outcome Error (RelocSection × Bytes)) → Ends 0 n o → IsAnswer (relocated o)
unfolding relocated
relocated-IsAnswer n (ok (s, [])) (returned h) = answered
relocated-IsAnswer n (ok (s, b ∷ rest)) (returned h) = faulted
relocated-IsAnswer n (err e) (refused h) = faulted
relocated-IsAnswer n panic h = elim h [ ]
relocated-IsAnswer n out_of_fuel h = elim h [ ]

IsAnswer-if :
    (b : Bool) {c d : Outcome Error (Option Section)}
    → IsAnswer c
    → IsAnswer d
    → IsAnswer (if b then c else d)
IsAnswer-if true h h' = h
IsAnswer-if false h h' = h'

pub parse_name-IsAnswer : (m : Module) (s : Section) → IsAnswer (parse_name m s)
unfolding parse_name
parse_name-IsAnswer m (Section.custom c) =
    IsAnswer-if _ (named-IsAnswer _ _ ((name_section-IsTotal m).at c.payload)) answered
parse_name-IsAnswer m s = answered

pub parse_relocation-IsAnswer : (s : Section) → IsAnswer (parse_relocation s)
unfolding parse_relocation
parse_relocation-IsAnswer (Section.custom c) =
    IsAnswer-if _ (relocated-IsAnswer _ _ ((reloc_section-IsTotal c.name).at c.payload)) answered
parse_relocation-IsAnswer s = answered
