-- ===== src/Elements/Primitives/CountedWriter.antt =====
-- src/elements/primitives.rs: `CountedWriter`, which puts the length of what it was given before it.
use parity_wasm.Base.{ok, err, panic, out_of_fuel, length}
use parity_wasm.Io.{invalid_data}
use parity_wasm.Elements.Error.{Error, from_io}
use parity_wasm.Elements.Codec.{Bytes, Written, ◌⊹◌}
use parity_wasm.Elements.Primitives.VarUint32

-- `.map_err(|_| e)?`
abbrev map_err : Error → Written → Written
map_err e (ok bs) = ok bs
map_err e (err _) = err e
map_err e panic = panic
map_err e out_of_fuel = out_of_fuel

unfoldable pub done : Bytes → Written
done written =
    map_err (from_io invalid_data) (VarUint32.serialize_usize (length written)) ⊹ ok written

-- A writer of its own, from `new` to `done`: an error comes out before anything is passed on.
unfoldable pub counted : Written → Written
unfolding done
counted (ok written) = done written
counted (err e) = err e
counted panic = panic
counted out_of_fuel = out_of_fuel
