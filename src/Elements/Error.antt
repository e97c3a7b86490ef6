-- ===== src/Elements/Error.antt =====
-- The errors of src/elements/mod.rs, and the conversion of an I/O error into one.
use parity_wasm.Base.{ℕ, String, Bool, true, false}
use parity_wasm.Base.Int.{ℤ}
use parity_wasm.Io.{IoError}

pub data Error : Type 0 where
  unexpected_eof : Error
  invalid_magic : Error
  unsupported_version : ℕ → Error
  inconsistent_length : ℕ → ℕ → Error
  other : String → Error
  heap_other : String → Error
  unknown_value_type : ℤ → Error
  unknown_table_element_type : ℤ → Error
  non_utf8_string : Error
  unknown_external_kind : ℕ → Error
  unknown_internal_kind : ℕ → Error
  unknown_opcode : ℕ → Error
  unknown_simd_opcode : ℕ → Error
  invalid_var_uint1 : ℕ → Error
  invalid_var_int32 : Error
  invalid_var_int64 : Error
  invalid_var_uint32 : Error
  invalid_var_uint64 : Error
  inconsistent_metadata : Error
  invalid_section_id : ℕ → Error
  sections_out_of_order : Error
  duplicated_sections : ℕ → Error
  invalid_memory_reference : ℕ → Error
  invalid_table_reference : ℕ → Error
  invalid_limits_flags : ℕ → Error
  unknown_function_form : ℕ → Error
  invalid_var_int7 : ℕ → Error
  inconsistent_code : Error
  invalid_segment_flags : ℕ → Error
  too_many_locals : Error

-- `format!("I/O Error: {:?}", err)`: the derived `Debug` prints the variant's name.
abbrev pub from_io : IoError → Error
from_io IoError.trailing_data = heap_other "I/O Error: TrailingData"
from_io IoError.unexpected_eof = heap_other "I/O Error: UnexpectedEof"
from_io IoError.invalid_data = heap_other "I/O Error: InvalidData"

-- The end of the input, as the deserializers report it.
abbrev pub eof : Error
eof = from_io IoError.unexpected_eof

-- The error that a pattern `Err(Error::UnexpectedEof)` takes.
abbrev pub is_eof : Error → Bool
is_eof unexpected_eof = true
is_eof _ = false
