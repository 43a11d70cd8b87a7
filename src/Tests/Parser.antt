-- ===== src/Tests/Parser.antt =====
-- Runs and instances for src/piConfigParser/piConfigParser.c.
use revpi_modbus.Parser.Numbers.{parse_numbers_lem}
use revpi_modbus.Processor.Safety.{Completed}
use revpi_modbus.Processor.{process_modbus_action, accepts}
use revpi_modbus.Prelude.{
  length, if◌then◌else◌, ℕ, ◌≡◌, refl, List, [], ◌∷◌, ◌++◌, Option, none, some, true, replicate,
  arith, All, ◌==◌,
}
use revpi_modbus.Prelude.Int.{pos}
use revpi_modbus.Config.{ModbusAction}
use revpi_modbus.External.{Outcome, done, aborted, overrun}
use revpi_modbus.External.Reasoning.{Returns}
use revpi_modbus.Parser.{
  empty_action, value, element_string, get_modbus_action_matching_name_string_value, first_match,
  get_variable_parameters, look_up_output, get_process_image_device_offset,
  get_variable_relative_offsets, stored_position, stored_byte, same_text, starts_with,
  initialise_status, place_data, parse_variable, parse_variables, parse_interval, parse_quantity,
  parse_register_address, parse_function_code, parse_slave_address, parse_number, parse_numbers,
  parse_action, parse_entries, Libraries, Text, ParsingError, parse_modbus_master_action_list,
  action_id_key, slave_address_key, function_code_key, register_address_key,
  quantity_of_registers_key, action_interval_key, variable_name_key, action_status_key,
  action_status_reset_key,
}
use revpi_modbus.Parser.Allows.{Allows}
use revpi_modbus.Parser.Actions.{ActionIsParsed}
use revpi_modbus.Parser.Lists.{parse_modbus_master_action_list_lem, parsed_action_completes}
use revpi_modbus.Tests.Samples.{read_two}
use revpi_modbus.Tests.Processor.{delivering, delivering-IsDocumented}

-- `_1_`.
abbrev pub identifier : Text
identifier = 95 ∷ 49 ∷ 95 ∷ []

-- A configuration of one action, by the numbers of its values: 2 is the action's section, 4 that of
-- the inputs, which has one variable, 7; any other number stands for itself.
abbrev action_entries : List (Text × ℕ)
action_entries =
    (action_id_key ++ identifier, 1)
    ∷ (slave_address_key ++ identifier, 1)
    ∷ (function_code_key ++ identifier, 3)
    ∷ (register_address_key ++ identifier, 1200)
    ∷ (quantity_of_registers_key ++ identifier, 2)
    ∷ (action_interval_key ++ identifier, 100)
    ∷ (variable_name_key ++ identifier, 33)
    ∷ (action_status_key ++ identifier, 33)
    ∷ (action_status_reset_key ++ identifier, 33)
    ∷ []

abbrev numbered_entries : ℕ → List (Text × ℕ)
numbered_entries n = if n == 2 then action_entries else if n == 4 then ([], 7) ∷ [] else []

-- A section is known by the first letter of its name.
abbrev numbered_get : Text → Option ℕ
numbered_get [] = none
numbered_get (c ∷ key) =
    if c == 100 then some 2 else if c == 105 then some 4 else if c == 111 then some 5 else some 1

abbrev first_number : Text → Option ℕ
first_number [] = none
first_number (n ∷ rest) = some n

abbrev numbered : Libraries
numbered = record {
  Json = ℕ;
  object_get = λ j key. numbered_get key;
  entries = numbered_entries;
  get_string = λ n. n ∷ [];
  get_array = λ n. some (33 ∷ 0 ∷ 0 ∷ 20 ∷ 0 ∷ 0 ∷ 0 ∷ 3 ∷ []);
  get_int = λ n. some (pos 11);
  strtoul = first_number;
  strtoumax = first_number;
  find_identifier = λ name. some identifier;
  allocates = λ name. true;
}

abbrev action_of : Outcome (Option ParsingError × List ModbusAction × ℕ) → List ModbusAction
action_of (done r h) = r.1
action_of (aborted h) = []
action_of (overrun h) = []

-- The variable at byte 20 of a device at byte 11, with bit 3.
one_action_parsed :
    action_of (parse_modbus_master_action_list (delivering 2) numbered 0 [])
    ≡ record read_two {
      start_byte_process_data = 31;
      start_bit_process_data = 3;
      status_byte_offset = 31;
      reset_status_byte_offset = 31;
      reset_status_bit_offset = 3;
    }
      ∷ []
unfolding parse_modbus_master_action_list parse_entries parse_action parse_numbers parse_number
    parse_slave_address parse_function_code parse_register_address parse_quantity parse_interval
    parse_variables parse_variable place_data initialise_status starts_with same_text stored_byte
    stored_position get_variable_relative_offsets get_process_image_device_offset look_up_output
    get_variable_parameters first_match get_modbus_action_matching_name_string_value element_string
one_action_parsed = refl

pub read_two-ActionIsParsed : ActionIsParsed read_two
read_two-ActionIsParsed = record {
  function = omega arith;
  start = omega arith;
  count = omega arith;
  interval = omega arith;
  whole = refl;
  slave = omega arith;
  bit = λ e. omega arith;
}

parse_modbus_master_action_list_lem_example :
    Allows
      (λ (r : Option ParsingError × List ModbusAction × ℕ).
        All ActionIsParsed r.1 × (r.2 ≡ length r.1))
      (parse_modbus_master_action_list (delivering 2) numbered 0 [])
parse_modbus_master_action_list_lem_example =
    parse_modbus_master_action_list_lem (delivering 2) numbered 0 []

parsed_action_completes_example :
    Returns
      (Completed (delivering 2) read_two (replicate 256 0) [])
      (process_modbus_action (delivering 2) read_two (replicate 256 0) [])
unfolding accepts
parsed_action_completes_example =
    parsed_action_completes (delivering 2) read_two (replicate 256 0) [] (delivering-IsDocumented 2)
      read_two-ActionIsParsed refl refl

parse_numbers_lem_example :
    parse_numbers numbered 2 (some identifier) []
    ≡ done
        (value (record empty_action {
          action_id = 1;
          slave_address = 1;
          function_code = 3;
          start_register = 1200;
          register_count = 2;
          interval_us = 100_000;
        }))
        []
unfolding starts_with first_match get_modbus_action_matching_name_string_value
parse_numbers_lem_example =
    parse_numbers_lem numbered 2 (some identifier)
      (record { id = 1; address = 1; function = 3; start = 1200; count = 2; interval_ms = 100 }) []
      (record {
        has_id = (1 ∷ [], refl, refl);
        has_address = (1 ∷ [], refl, refl);
        has_function = (3 ∷ [], refl, refl);
        has_start = (1200 ∷ [], refl, refl);
        has_count = (2 ∷ [], refl, refl);
        has_interval = (100 ∷ [], refl, refl);
        id_fits = omega arith;
        address_fits = omega arith;
        function_fits = omega arith;
        start_fits = omega arith;
        count_fits = omega arith;
        interval_fits = omega arith;
      })
