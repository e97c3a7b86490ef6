-- ===== src/Examples/Entries.antt =====
-- Imports and exports.
use parity_wasm.Base.{◌≢◌, ◌↔◌, ◌≡◌, refl, [], ◌∷◌, true, none, Option, err, ℕ, arith}
use parity_wasm.Elements.Error.{invalid_limits_flags}
use parity_wasm.Elements.Codec.{Restores}
use parity_wasm.Elements.Primitives.Uint8
use parity_wasm.Elements.ImportEntry.{ResizableLimits, deserialize_limits, serialize_limits}
use parity_wasm.Elements.ImportEntry.RoundTrip.{ResizableLimits-Restores_iff}

-- What `MemoryType::new(1, None, true)` holds.
abbrev shared_limits : ResizableLimits
shared_limits = record { initial = 1; maximum = none; shared = true }

ResizableLimits-Restores_iff_example :
    Restores (serialize_limits shared_limits) deserialize_limits shared_limits
    ↔ (true ≡ true → ◌≢◌ {A = Option ℕ} none none)
ResizableLimits-Restores_iff_example =
    ResizableLimits-Restores_iff shared_limits (omega arith, λ m e. cc e)

refused : deserialize_limits (0x02 ∷ 0x01 ∷ []) ≡ err (invalid_limits_flags 0x02)
unfolding deserialize_limits Uint8.deserialize
refused = refl
