-- ===== src/Elements/Primitives/Total.antt =====
-- The readers of src/elements/primitives.rs end on every input: rules for the blocks that use them.
use parity_wasm.Elements.Total.{IsTotal, IsTotal-progress, total_rules}
use parity_wasm.Elements.Primitives.VarUint7
use parity_wasm.Elements.Primitives.Uint8
use parity_wasm.Elements.Primitives.VarUint1.{VarUint1-IsTotal}
use parity_wasm.Elements.Primitives.VarInt7.{VarInt7-IsTotal}
use parity_wasm.Elements.Primitives.VarUint32.{VarUint32-IsTotal}
use parity_wasm.Elements.Primitives.VarInt32.{VarInt32-IsTotal}
use parity_wasm.Elements.Primitives.VarInt64.{VarInt64-IsTotal}
use parity_wasm.Elements.Primitives.Text.{Text-IsTotal}
use parity_wasm.Elements.Primitives.CountedList.{CountedList-IsTotal}

pub VarUint7-IsTotal : IsTotal VarUint7.deserialize
VarUint7-IsTotal = IsTotal-progress VarUint7.VarUint7-IsProgress

pub Uint8-IsTotal : IsTotal Uint8.deserialize
Uint8-IsTotal = IsTotal-progress Uint8.Uint8-IsProgress

pub ruleset reader_rules = (
  total_rules, VarUint7-IsTotal, Uint8-IsTotal, VarUint1-IsTotal, VarInt7-IsTotal,
  VarUint32-IsTotal, VarInt32-IsTotal, VarInt64-IsTotal, Text-IsTotal, CountedList-IsTotal,
)
