-- ===== src/Tests/System.antt =====
-- A configuration file of one master with one action, from its text to the end of its thread.
use revpi_modbus.Tests.Fractions.{fractions-IsIeee, fractions}
use revpi_modbus.Processor.Scope.{Extends}
use revpi_modbus.Slave.Resources.{Owes}
use revpi_modbus.Program.System.{OfConfigured, configured_master_runs, run_master}
use revpi_modbus.Slave.Threads.{waiting}
use revpi_modbus.External.Reasoning.{Returns}
use revpi_modbus.Tests.Scheduler.{all_memory}
use revpi_modbus.Processor.{accepts}
use revpi_modbus.Prelude.{
  inl, arith, ◌≢◌, true, ℕ, refl, List, [], ◌∷◌, ◌++◌, Option, none, some, if◌then◌else◌, ◌==◌,
}
use revpi_modbus.Config.{MasterConfiguration, tcp}
use revpi_modbus.Tests.Samples.{read_two}
use revpi_modbus.External.{Outcome, done, aborted, overrun, History}
use revpi_modbus.Parser.{
  Libraries, Text, ParsingError, action_id_key, slave_address_key, function_code_key,
  register_address_key, quantity_of_registers_key, action_interval_key, variable_name_key,
  action_status_key, action_status_reset_key, first_match, get_variable_parameters, look_up_output,
  get_process_image_device_offset, get_variable_relative_offsets, stored_position, stored_byte,
  same_text, starts_with, initialise_status, place_data, parse_variable, parse_variables,
  parse_interval, parse_quantity, parse_register_address, parse_function_code, parse_slave_address,
  parse_number, parse_numbers, parse_action, parse_entries, parse_modbus_master_action_list,
  element_string, get_modbus_action_matching_name_string_value,
}
use revpi_modbus.Device.{
  Platform, parse_modbus_master_config_data, master_tcp_product_type, get_json_devices_array,
  parse_devices, parse_entry, configure_master, complete_master, find_status_offsets,
  get_device_product_type, has_type, parse_device_modbus_configuration, parse_protocol,
  parse_master_tcp, get_number, get_device_string_parameter, string_element,
}
use revpi_modbus.Tests.Device.{one_device, linux, members}
use revpi_modbus.Tests.Parser.{identifier}
use revpi_modbus.Tests.Processor.{delivering-IsDocumented, delivering}

-- The values of the action stand for themselves, and 70 is the name of a variable.
abbrev one_action : List (Text × ℕ)
one_action =
    (action_id_key ++ identifier, 1)
    ∷ (slave_address_key ++ identifier, 1)
    ∷ (function_code_key ++ identifier, 3)
    ∷ (register_address_key ++ identifier, 1200)
    ∷ (quantity_of_registers_key ++ identifier, 2)
    ∷ (action_interval_key ++ identifier, 100)
    ∷ (variable_name_key ++ identifier, 70)
    ∷ (action_status_key ++ identifier, 70)
    ∷ (action_status_reset_key ++ identifier, 70)
    ∷ []

abbrev file_library : Libraries
file_library = record (one_device master_tcp_product_type) {
  entries = λ j. if j == 7 then one_action else members j;
  find_identifier = λ name. some identifier;
}

abbrev file_platform : Platform file_library
file_platform = record {
  json_type = (linux master_tcp_product_type).json_type;
  json_tokener_parse = λ text. some 1;
  char_max = 127;
  allocates_entry = λ i. true;
}

abbrev reading : Outcome (Option ParsingError × List MasterConfiguration)
reading = parse_modbus_master_config_data file_library file_platform (delivering 2) [] []

abbrev result_of :
    Outcome (Option ParsingError × List MasterConfiguration)
    → Option ParsingError × List MasterConfiguration
result_of (done r h) = r
result_of (aborted h) = (none, [])
result_of (overrun h) = (none, [])

abbrev history_of : Outcome (Option ParsingError × List MasterConfiguration) → History
history_of (done r h) = h
history_of (aborted h) = h
history_of (overrun h) = h

abbrev the_master : MasterConfiguration
the_master = record {
  master_device = record {
    protocol = tcp (record { ip_address = 502 ∷ []; port = 110; max_modbus_connections = 0 });
    device_status_byte_offset = 65;
    device_status_reset_byte_offset = 0;
  };
  action_count = 1;
  action_list =
      record read_two {
        start_byte_process_data = 65;
        start_bit_process_data = 50;
        status_byte_offset = 65;
        reset_status_byte_offset = 65;
        reset_status_bit_offset = 50;
      }
      ∷ [];
}

configured_master_runs_example :
    Returns
      (λ s h'. (s ≢ waiting) × Extends (OfConfigured the_master) [] h' × Owes 0 0 [] h')
      (run_master (delivering 2) all_memory fractions 4 3 2 the_master [])
unfolding accepts all_memory parse_modbus_master_config_data get_json_devices_array parse_devices
    parse_entry configure_master complete_master find_status_offsets get_device_product_type
    has_type parse_device_modbus_configuration parse_protocol parse_master_tcp get_number
    get_device_string_parameter string_element parse_modbus_master_action_list parse_entries
    parse_action parse_numbers parse_number parse_slave_address parse_function_code
    parse_register_address parse_quantity parse_interval parse_variables parse_variable place_data
    initialise_status starts_with same_text stored_byte stored_position
    get_variable_relative_offsets get_process_image_device_offset look_up_output
    get_variable_parameters first_match get_modbus_action_matching_name_string_value element_string
configured_master_runs_example =
    configured_master_runs (delivering 2) (delivering-IsDocumented 2) (λ h. omega arith) all_memory
      fractions fractions-IsIeee file_library file_platform [] [] (history_of reading)
      (result_of reading) the_master 4 0 2 3 [] refl (inl refl) (λ e. cc) (refl, tt) (refl, tt)
      (omega arith) refl
