-- ===== src/Parser.antt =====
-- src/piConfigParser/piConfigParser.c: the actions of a master, read from its part of the PiCtory
-- configuration.
mod Names
pub mod Actions
pub mod Allows
pub mod Lists
pub mod Numbers
mod Variables
pub use Names.*
pub use Variables.{Libraries, Position}
unfoldable pub use Variables.{
  starts_with, same_text, stored_byte, stored_position, get_variable_relative_offsets,
  get_process_image_device_offset, look_up_output, get_variable_parameters, first_match,
  get_modbus_action_matching_name_string_value, element_string,
}
use revpi_modbus.Prelude.{
  ◌++◌, ◌-◌, if◌then◌else◌, ℕ, zero, suc, ◌+◌, ◌*◌, ◌/◌, ◌%◌, ◌^◌, ◌==◌, ◌&&◌, ◌||◌, Bool, true,
  false, leb, ltb, Option, none, some, List, [], ◌∷◌, get_elem?, map,
}
use revpi_modbus.Prelude.Int.{ℤ, pos, negsuc}
use revpi_modbus.Config.{
  ModbusAction, is_bit_function, read_coils, write_and_read_registers, max_register_size_per_action,
}
use revpi_modbus.External.{
  Env, M, ◌>>=◌, ◌>>◌, pure, call, assert, overrun, branch, pi_set_bit, pi_write,
}

-- How one part of an action is read: its value, `continue`, or a `return` with an error.
pub data Parsed (A : Type 0) : Type 0 where
  value : A → Parsed A
  skip : Parsed A
  fail : ParsingError → Parsed A

infixl 5 ◌>=>◌
abbrev pub ◌>=>◌ : {A B : Type 0} → M (Parsed A) → (A → M (Parsed B)) → M (Parsed B)
m >=> f = m >>= λ p. elim p [ value a ↦ f a | skip ↦ pure skip | fail e ↦ pure (fail e) ]

-- The identifier found in a name, else the one before.
abbrev pub latest : Option Text → Option Text → Option Text
latest before none = before
latest before (some identifier) = some identifier

-- What `calloc` gives.
abbrev pub empty_action : ModbusAction
empty_action = record {
  action_id = 0;
  slave_address = 0;
  function_code = 0;
  start_register = 0;
  register_count = 0;
  interval_us = 0;
  start_byte_process_data = 0;
  start_bit_process_data = 0;
  status_byte_offset = 0;
  reset_status_byte_offset = 0;
  reset_status_bit_offset = 0;
}

-- The bit position of a coil action is brought below 8.
unfoldable pub place_data : ModbusAction → Position → ModbusAction
place_data a p =
    if is_bit_function a.function_code
    then record a {
      start_byte_process_data = (p.byte + p.bit % 2 ^ 8 / 8) % 2 ^ 32;
      start_bit_process_data = p.bit % 2 ^ 8 % 8;
    }
    else record a { start_byte_process_data = p.byte; start_bit_process_data = p.bit % 2 ^ 8 }

-- The status byte and the reset bit start at 0.
unfoldable pub initialise_status : Env → ModbusAction → M (Parsed ModbusAction)
initialise_status env a =
    call env (pi_set_bit (a.reset_status_byte_offset % 2 ^ 16) a.reset_status_bit_offset 0)
    >> call env (pi_write a.status_byte_offset 1 (0 ∷ []))
    >> pure (value a)

module _ (lib : Libraries) where
  open lib use {
    Json, object_get, entries, get_string, get_array, get_int, strtoul, strtoumax, find_identifier,
    allocates,
  }

  -- One number of an action, in 32 bits, which an assertion bounds from `min` to `max`; the
  -- slave address, for which the assertion is commented out, may be any.
  unfoldable pub parse_number :
      Json → Option Text → Text → ParsingError → (min max : ℕ) → M (Parsed ℕ)
  parse_number actions identifier key error min max =
      elim (get_modbus_action_matching_name_string_value lib actions key identifier) [
        | none ↦ pure skip
        | some text ↦ elim (strtoul text) [
          | none ↦ pure (fail error)
          | some n ↦
              assert (leb min (n % 2 ^ 32) && leb (n % 2 ^ 32) max) >> pure (value (n % 2 ^ 32))
        ]
      ]

  -- The position of a variable of an action.
  unfoldable pub parse_variable : Json → Json → Option Text → Text → Position → M (Parsed Position)
  parse_variable device actions identifier key p =
      elim (get_modbus_action_matching_name_string_value lib actions key identifier) [
        | none ↦ pure skip
        | some name ↦ get_variable_parameters lib device name p >>= λ r.
            pure (if r.0 then value r.1 else skip)
      ]

  -- The numbers of an action, each stored before the next is read.
  unfoldable pub parse_interval : Json → Option Text → ModbusAction → M (Parsed ModbusAction)
  parse_interval actions identifier a =
      parse_number actions identifier action_interval_key action_intervall_wrong_format 1
        (1000 * 60 * 30)
      >=> λ n. pure (value (record a { interval_us = n * 1000 % 2 ^ 32 }))

  unfoldable pub parse_quantity : Json → Option Text → ModbusAction → M (Parsed ModbusAction)
  parse_quantity actions identifier a =
      parse_number actions identifier quantity_of_registers_key
        action_register_quantity_wrong_format 1 max_register_size_per_action
      >=> λ n. parse_interval actions identifier (record a { register_count = n % 2 ^ 16 })

  unfoldable pub parse_register_address :
      Json → Option Text → ModbusAction → M (Parsed ModbusAction)
  parse_register_address actions identifier a =
      parse_number actions identifier register_address_key action_register_address_wrong_format 1
        0xffff
      >=> λ n. parse_quantity actions identifier (record a { start_register = n })

  unfoldable pub parse_function_code : Json → Option Text → ModbusAction → M (Parsed ModbusAction)
  parse_function_code actions identifier a =
      parse_number actions identifier function_code_key action_function_code_wrong_format read_coils
        (write_and_read_registers - 1)
      >=> λ n. parse_register_address actions identifier (record a { function_code = n })

  unfoldable pub parse_slave_address : Json → Option Text → ModbusAction → M (Parsed ModbusAction)
  parse_slave_address actions identifier a =
      parse_number actions identifier slave_address_key action_address_wrong_format 0 (2 ^ 32 - 1)
      >=> λ n. parse_function_code actions identifier (record a { slave_address = n % 2 ^ 8 })

  unfoldable pub parse_numbers : Json → Option Text → M (Parsed ModbusAction)
  parse_numbers actions identifier =
      parse_number actions identifier action_id_key action_id_wrong_format 1 (2 ^ 31 - 2) >=> λ n.
      parse_slave_address actions identifier (record empty_action { action_id = n % 2 ^ 16 })

  -- Its three variables. The position of one is passed to the look-up of the next.
  unfoldable pub parse_variables :
      Json → Json → Option Text → ModbusAction → M (Parsed ModbusAction)
  parse_variables device actions identifier a =
      parse_variable device actions identifier variable_name_key (record { byte = 0; bit = 0 })
      >=> λ place. parse_variable device actions identifier action_status_key place >=> λ status.
          parse_variable device actions identifier action_status_reset_key status >=> λ reset.
          pure (
            value (record (place_data a place) {
              status_byte_offset = status.byte;
              reset_status_byte_offset = reset.byte;
              reset_status_bit_offset = reset.bit % 2 ^ 8;
            }))

module _ (env : Env) (lib : Libraries) where
  open lib use {
    Json, object_get, entries, get_string, get_array, get_int, strtoul, strtoumax, find_identifier,
    allocates,
  }

  unfoldable pub parse_action : Json → Json → Option Text → M (Parsed ModbusAction)
  parse_action device actions identifier = parse_numbers lib actions identifier >=> λ a.
      parse_variables lib device actions identifier a >=> λ a'. initialise_status env a'

  -- The loop over the entries. The identifier of an action that was skipped stays until another
  -- name has one. The list is built from its end, and `count` counts its actions.
  unfoldable pub parse_entries :
      Json
      → Json
      → List (Text × Json)
      → Option Text
      → List ModbusAction
      → (count : ℕ) → M (Option ParsingError × List ModbusAction × ℕ)
  parse_entries device actions [] identifier list count = pure (none, list, count)
  parse_entries device actions ((name, val) ∷ rest) identifier list count =
      branch (starts_with action_id_key name)
        (branch (allocates name)
          (parse_action device actions (latest identifier (find_identifier name)) >>= λ p. elim p [
            | value a ↦ parse_entries device actions rest none (a ∷ list) (count + 1)
            | skip ↦
                parse_entries device actions rest (latest identifier (find_identifier name)) list
                  count
            | fail e ↦ pure (some e, list, count)
          ])
          (pure (some general_exception, list, count)))
        (parse_entries device actions rest identifier list count)

  unfoldable pub parse_modbus_master_action_list :
      Json → M (Option ParsingError × List ModbusAction × ℕ)
  parse_modbus_master_action_list device = elim (object_get device extend_key) [
    | none ↦ pure (some extend_section_not_found, [], 0)
    | some extend ↦ elim (object_get extend data_key) [
      | none ↦ pure (some action_data_section_not_found, [], 0)
      | some actions ↦ parse_entries device actions (entries actions) none [] 0
    ]
  ]
