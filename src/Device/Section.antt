-- ===== src/Device/Section.antt =====
-- The sections of a device's variables in src/piConfigParser/piConfigParser.c: the part of the
-- process image that the inputs, or the outputs, of a slave lie in.
use revpi_modbus.Device.Interface.{is_null, is_string, is_object, Platform}
use revpi_modbus.Prelude.{
  not, ℕ, ◌+◌, ◌-◌, ◌/◌, ◌%◌, ◌^◌, if◌then◌else◌, Option, none, List, [], ◌∷◌, ltb, get_elem?,
}
use revpi_modbus.Parser.{
  offset_position_parameter_not_found, general_exception, process_image_wrong_type,
  process_image_object_empty, offset_position_parameter_wrong_type, Libraries, Text,
}
use revpi_modbus.Device.Results.{Result, ok, ◌>>=◌, ◌>>◌, require, found}

-- The variables of the loop: the least offset, the greatest, and the size of the variable there,
-- which may be NULL.
pub record Extent (Json : Type 0) : Type 0 where
  pub start_address : ℕ
  pub size : ℕ
  pub highest_size : Option Json

-- What the function stores: an offset and a length, both in bytes.
pub record Span : Type 0 where
  pub offset : ℕ
  pub length : ℕ

module _ (lib : Libraries) (platform : Platform lib) where
  open lib use {Json, entries, get_string, get_array, strtoumax}
  open platform use {json_type}

  -- A number in 32 bits from a string that may be NULL or of another type.
  unfoldable pub get_offset : List Json → Result ℕ
  get_offset elements = do
    j ← found offset_position_parameter_not_found (get_elem? elements 3)
    require (not (is_null (json_type j))) offset_position_parameter_not_found
    require (is_string (json_type j)) offset_position_parameter_wrong_type
    n ← found general_exception (strtoumax (get_string j))
    ok (n % 2 ^ 32)

  -- The variables after a variable.
  unfoldable pub extend : List Json → ℕ → Extent Json → Extent Json
  extend elements offset x = record {
    start_address = if ltb offset x.start_address then offset else x.start_address;
    size = if ltb x.size offset then offset else x.size;
    highest_size = if ltb x.size offset then get_elem? elements 2 else x.highest_size;
  }

  unfoldable pub scan_variables : List (Text × Json) → Extent Json → Result (Extent Json)
  scan_variables [] x = ok x
  scan_variables ((key, val) ∷ rest) x =
      found process_image_object_empty (get_array val) >>= λ elements.
      get_offset elements >>= λ offset. scan_variables rest (extend elements offset x)

  -- The section, from the offsets and the size in bits of the last variable.
  unfoldable pub measure : Extent Json → Result Span
  measure x = do
    j ← found offset_position_parameter_wrong_type x.highest_size
    require (is_string (json_type j)) offset_position_parameter_wrong_type
    bits ← found general_exception (strtoumax (get_string j))
    ok (record {
      offset = x.start_address;
      length = (x.size + bits % 2 ^ 32 / 8 + (2 ^ 32 - x.start_address)) % 2 ^ 32;
    })

  unfoldable pub get_device_process_image_parameter : Json → Result Span
  get_device_process_image_parameter section = do
    require (is_object (json_type section)) process_image_wrong_type
    x ←
        scan_variables (entries section)
          (record { start_address = 2 ^ 32 - 1; size = 0; highest_size = none })
    measure x
