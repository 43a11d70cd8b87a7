-- ===== src/Parser/Names.antt =====
-- The names that src/piConfigParser/piConfigParser.c looks for, in ASCII, and its error codes.
use revpi_modbus.Prelude.{ℕ, List, [], ◌∷◌}

abbrev pub Text : Type 0
Text = List ℕ

-- `ActionId`.
abbrev pub action_id_key : Text
action_id_key = 65 ∷ 99 ∷ 116 ∷ 105 ∷ 111 ∷ 110 ∷ 73 ∷ 100 ∷ []

-- `SlaveAddress`.
abbrev pub slave_address_key : Text
slave_address_key = 83 ∷ 108 ∷ 97 ∷ 118 ∷ 101 ∷ 65 ∷ 100 ∷ 100 ∷ 114 ∷ 101 ∷ 115 ∷ 115 ∷ []

-- `FunctionCode`.
abbrev pub function_code_key : Text
function_code_key = 70 ∷ 117 ∷ 110 ∷ 99 ∷ 116 ∷ 105 ∷ 111 ∷ 110 ∷ 67 ∷ 111 ∷ 100 ∷ 101 ∷ []

-- `RegisterAddress`.
abbrev pub register_address_key : Text
register_address_key =
    82 ∷ 101 ∷ 103 ∷ 105 ∷ 115 ∷ 116 ∷ 101 ∷ 114 ∷ 65 ∷ 100 ∷ 100 ∷ 114 ∷ 101 ∷ 115 ∷ 115 ∷ []

-- `QuantityOfRegisters`.
abbrev pub quantity_of_registers_key : Text
quantity_of_registers_key =
    81 ∷ 117 ∷ 97 ∷ 110 ∷ 116 ∷ 105 ∷ 116 ∷ 121 ∷ 79 ∷ 102 ∷ 82 ∷ 101 ∷ 103 ∷ 105 ∷ 115 ∷ 116 ∷ 101
    ∷ 114 ∷ 115 ∷ []

-- `ActionInterval`.
abbrev pub action_interval_key : Text
action_interval_key =
    65 ∷ 99 ∷ 116 ∷ 105 ∷ 111 ∷ 110 ∷ 73 ∷ 110 ∷ 116 ∷ 101 ∷ 114 ∷ 118 ∷ 97 ∷ 108 ∷ []

-- `DeviceValue`.
abbrev pub variable_name_key : Text
variable_name_key = 68 ∷ 101 ∷ 118 ∷ 105 ∷ 99 ∷ 101 ∷ 86 ∷ 97 ∷ 108 ∷ 117 ∷ 101 ∷ []

-- `ModbusActionStatus`.
abbrev pub action_status_key : Text
action_status_key =
    77 ∷ 111 ∷ 100 ∷ 98 ∷ 117 ∷ 115 ∷ 65 ∷ 99 ∷ 116 ∷ 105 ∷ 111 ∷ 110 ∷ 83 ∷ 116 ∷ 97 ∷ 116 ∷ 117
    ∷ 115 ∷ []

-- `ActionStatusReset`.
abbrev pub action_status_reset_key : Text
action_status_reset_key =
    65 ∷ 99 ∷ 116 ∷ 105 ∷ 111 ∷ 110 ∷ 83 ∷ 116 ∷ 97 ∷ 116 ∷ 117 ∷ 115 ∷ 82 ∷ 101 ∷ 115 ∷ 101 ∷ 116
    ∷ []

-- `extend`.
abbrev pub extend_key : Text
extend_key = 101 ∷ 120 ∷ 116 ∷ 101 ∷ 110 ∷ 100 ∷ []

-- `data`.
abbrev pub data_key : Text
data_key = 100 ∷ 97 ∷ 116 ∷ 97 ∷ []

-- `inp`.
abbrev pub inp_key : Text
inp_key = 105 ∷ 110 ∷ 112 ∷ []

-- `out`.
abbrev pub out_key : Text
out_key = 111 ∷ 117 ∷ 116 ∷ []

-- `offset`.
abbrev pub offset_key : Text
offset_key = 111 ∷ 102 ∷ 102 ∷ 115 ∷ 101 ∷ 116 ∷ []

pub data ParsingError : Type 0 where
  action_address_wrong_format : ParsingError
  action_data_section_not_found : ParsingError
  action_function_code_wrong_format : ParsingError
  action_id_wrong_format : ParsingError
  action_intervall_wrong_format : ParsingError
  action_register_address_wrong_format : ParsingError
  action_register_quantity_wrong_format : ParsingError
  device_reset_entries_not_found : ParsingError
  devices_section_empty : ParsingError
  devices_section_not_found : ParsingError
  extend_section_not_found : ParsingError
  general_exception : ParsingError
  input_parameter_section_not_found : ParsingError
  interface_section_not_found : ParsingError
  length_position_parameter_not_found : ParsingError
  length_position_parameter_wrong_type : ParsingError
  max_connections_limit_exceeded : ParsingError
  max_connections_not_found : ParsingError
  offset_position_parameter_not_found : ParsingError
  offset_position_parameter_wrong_type : ParsingError
  output_parameter_section_not_found : ParsingError
  process_image_object_empty : ParsingError
  process_image_wrong_type : ParsingError
  product_name_not_found : ParsingError
  product_type_section_empty : ParsingError
  product_type_section_not_found : ParsingError
  rtu_baudrate_not_found : ParsingError
  rtu_baudrate_wrong_format : ParsingError
  rtu_databits_not_found : ParsingError
  rtu_databits_size : ParsingError
  rtu_device_path_length_exceeded : ParsingError
  rtu_device_path_not_found : ParsingError
  rtu_modbus_address_not_found : ParsingError
  rtu_modbus_address_size : ParsingError
  rtu_parity_length_exceeded : ParsingError
  rtu_parity_not_found : ParsingError
  rtu_parity_wrong_format : ParsingError
  rtu_stopbits_not_found : ParsingError
  rtu_stopbits_size : ParsingError
  tcp_address_not_found : ParsingError
  tcp_address_wrong_format : ParsingError
  tcp_port_not_found : ParsingError
  tcp_port_wrong_format : ParsingError
  unknown_modbus_device : ParsingError
