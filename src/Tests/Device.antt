-- ===== src/Tests/Device.antt =====
-- Runs and instances for the devices of src/piConfigParser/piConfigParser.c.
use revpi_modbus.Device.Variables.{Variable, extent_of}
use revpi_modbus.Device.Extents.{
  get_device_process_image_parameter-IsSpan, IsSpan, get_device_process_image_parameter_lem,
  read_variables,
}
use revpi_modbus.Device.Bounds.{parse_device_modbus_configuration_lem, DeviceIsParsed}
use revpi_modbus.Device.Lists.{parse_modbus_master_config_data_lem, MasterIsParsed}
use revpi_modbus.Device.Slaves.{parse_modbus_slaves_config_data_lem, SlaveIsParsed}
use revpi_modbus.Device.{
  parse_modbus_slave_device_process_image_config, string_element, get_device_string_parameter,
  get_number, parse_slave_tcp, parse_protocol, configure_slave, measure, has_type,
  get_device_product_type, scan_variables, master_tcp_product_type, parse_entry, extend,
  parse_device_modbus_configuration, get_offset, parse_devices, parse_modbus_master_config_data,
  get_json_devices_array, get_device_process_image_parameter, any_address, json_string, json_object,
  slave_tcp_product_type, parse_modbus_slaves_config_data, master_status_key, Platform, Span,
}
use revpi_modbus.Prelude.{
  ℕ, ◌≡◌, refl, List, [], ◌∷◌, Option, none, some, All, if◌then◌else◌, ◌==◌, true,
}
use revpi_modbus.Prelude.Int.{pos}
use revpi_modbus.Config.{tcp, MasterConfiguration, SlaveConfiguration}
use revpi_modbus.External.{Outcome, done, aborted, overrun}
use revpi_modbus.Parser.{
  get_process_image_device_offset, starts_with, process_image_wrong_type, Libraries, Text,
  ParsingError,
}
use revpi_modbus.Parser.Allows.{Allows}
use revpi_modbus.Device.Results.{require, WhereOk, ◌>>=◌, ◌>>◌, ok}
use revpi_modbus.Tests.Processor.{delivering}

-- A configuration of one device, whose type is given. A value is a number: 1 is the file, 3 the
-- device, 4 its interface, 5 and 6 its sections, 7 its actions, 9 its extension; from 50 on a value
-- stands for the string of itself.
abbrev letter : Text → ℕ
letter [] = 0
letter (c ∷ []) = c
letter (c ∷ d ∷ rest) = d

abbrev member : ℕ → ℕ → Option ℕ
member j c =
    if c == 114
    then some 10
    else if c == 101
    then (if j == 1 then some 2 else if j == 9 then some 8 else some 4)
    else if c == 102
    then some 11
    else if c == 110
    then some 5
    else if c == 117
    then some 6
    else if c == 120
    then some 9
    else if c == 97
    then some 7
    else if c == 48
    then some 20
    else if c == 49
    then some 21
    else none

abbrev pub members : ℕ → List (Text × ℕ)
members j =
    if j == 8 then (master_status_key, 70) ∷ [] else if j == 7 then [] else ([], 40) ∷ ([], 41) ∷ []

abbrev elements_of : ℕ → List ℕ
elements_of j =
    if j == 2
    then 3 ∷ []
    else if j == 20
    then 0 ∷ 502 ∷ []
    else if j == 21
    then 0 ∷ 110 ∷ []
    else if j == 40
    then 70 ∷ 0 ∷ 56 ∷ 54 ∷ 0 ∷ 0 ∷ 0 ∷ 50 ∷ []
    else 71 ∷ 0 ∷ 64 ∷ 56 ∷ 0 ∷ 0 ∷ 0 ∷ 50 ∷ []

abbrev head_or_zero : Text → Option ℕ
head_or_zero [] = none
head_or_zero (n ∷ rest) = some n

abbrev pub one_device : Text → Libraries
one_device type = record {
  Json = ℕ;
  object_get = λ j key. member j (letter key);
  entries = members;
  get_string = λ j. if j == 10 then type else j ∷ [];
  get_array = λ j. some (elements_of j);
  get_int = λ j. some (pos 11);
  strtoul = head_or_zero;
  strtoumax = head_or_zero;
  find_identifier = λ name. none;
  allocates = λ name. true;
}

abbrev pub linux : (type : Text) → Platform (one_device type)
linux type = record {
  json_type = λ j. if j == 5 then json_object else if j == 6 then json_object else json_string;
  json_tokener_parse = λ text. some 1;
  char_max = 127;
  allocates_entry = λ i. true;
}

abbrev list_of : {A : Type 0} → Outcome (Option ParsingError × List A) → List A
list_of (done r h) = r.1
list_of (aborted h) = []
list_of (overrun h) = []

abbrev ten_bytes : Span
ten_bytes = record { offset = 54; length = 10 }

-- A slave over TCP with two variables of 7 and 8 bytes at the offsets 54 and 56, as inputs and as
-- outputs.
slave_parsed :
    list_of (
      parse_modbus_slaves_config_data
        (one_device slave_tcp_product_type)
        (linux slave_tcp_product_type)
        []
        [])
    ≡ record {
      slave_device = record {
        protocol =
            tcp (record { ip_address = any_address; port = 502; max_modbus_connections = 110 });
        device_status_byte_offset = 0;
        device_status_reset_byte_offset = 0;
      };
      data_config = record {
        discrete_inputs = 0;
        coils = 0;
        input_registers = 5;
        holding_registers = 5;
      };
      process_image_config = record {
        discrete_inputs_offset = 0;
        discrete_inputs_length = 0;
        coils_input_offset = 0;
        coils_length = 0;
        input_registers_offset = 65;
        input_registers_length = 10;
        holding_registers_input_offset = 65;
        holding_registers_length = 10;
      };
    }
      ∷ []
unfolding parse_modbus_slaves_config_data get_json_devices_array parse_devices parse_entry
    get_device_product_type has_type starts_with configure_slave parse_device_modbus_configuration
    parse_protocol parse_slave_tcp get_number get_device_string_parameter string_element
    parse_modbus_slave_device_process_image_config get_process_image_device_offset
    get_device_process_image_parameter get_offset extend scan_variables measure
slave_parsed = refl

abbrev slave_library : Libraries
slave_library = one_device slave_tcp_product_type

abbrev slave_platform : Platform slave_library
slave_platform = linux slave_tcp_product_type

parse_modbus_slaves_config_data_lem_example :
    Allows
      (λ (r : Option ParsingError × List SlaveConfiguration). All SlaveIsParsed r.1)
      (parse_modbus_slaves_config_data slave_library slave_platform [] [])
parse_modbus_slaves_config_data_lem_example =
    parse_modbus_slaves_config_data_lem slave_library slave_platform [] []

parse_device_modbus_configuration_lem_example :
    WhereOk DeviceIsParsed (parse_device_modbus_configuration slave_library slave_platform 3)
parse_device_modbus_configuration_lem_example =
    parse_device_modbus_configuration_lem slave_library slave_platform 3

parse_modbus_master_config_data_lem_example :
    Allows
      (λ (r : Option ParsingError × List MasterConfiguration). All MasterIsParsed r.1)
      (parse_modbus_master_config_data
        (one_device master_tcp_product_type)
        (linux master_tcp_product_type)
        (delivering 2)
        []
        [])
parse_modbus_master_config_data_lem_example =
    parse_modbus_master_config_data_lem (delivering 2) (one_device master_tcp_product_type)
      (linux master_tcp_product_type) [] []

get_device_process_image_parameter_lem_example :
    get_device_process_image_parameter slave_library slave_platform 5 ≡ (
      require true process_image_wrong_type
      >> (read_variables slave_library slave_platform (members 5) >>= λ vs.
          measure slave_library slave_platform (extent_of vs)))
get_device_process_image_parameter_lem_example =
    get_device_process_image_parameter_lem slave_library slave_platform 5

get_device_process_image_parameter-IsSpan_example :
    (vs : List (Variable ℕ)) × (read_variables slave_library slave_platform (members 5) ≡ ok vs)
    × IsSpan slave_library slave_platform vs ten_bytes
unfolding get_device_process_image_parameter get_offset extend scan_variables measure
get_device_process_image_parameter-IsSpan_example =
    get_device_process_image_parameter-IsSpan slave_library slave_platform 5 ten_bytes refl
