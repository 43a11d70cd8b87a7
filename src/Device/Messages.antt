-- ===== src/Device/Messages.antt =====
-- The texts that `print_err` of src/piConfigParser/piConfigParser.c logs for the error codes.
use Prim.Native.String.{String}
use revpi_modbus.Prelude.{Option, none, some}
use revpi_modbus.Parser.{
  ParsingError, action_address_wrong_format, action_data_section_not_found,
  action_function_code_wrong_format, action_id_wrong_format, action_intervall_wrong_format,
  action_register_address_wrong_format, action_register_quantity_wrong_format,
  device_reset_entries_not_found, devices_section_empty, devices_section_not_found,
  extend_section_not_found, general_exception, input_parameter_section_not_found,
  interface_section_not_found, length_position_parameter_not_found,
  length_position_parameter_wrong_type, max_connections_limit_exceeded, max_connections_not_found,
  offset_position_parameter_not_found, offset_position_parameter_wrong_type,
  output_parameter_section_not_found, process_image_object_empty, process_image_wrong_type,
  product_name_not_found, product_type_section_empty, product_type_section_not_found,
  rtu_baudrate_not_found, rtu_baudrate_wrong_format, rtu_databits_not_found, rtu_databits_size,
  rtu_device_path_length_exceeded, rtu_device_path_not_found, rtu_modbus_address_not_found,
  rtu_modbus_address_size, rtu_parity_length_exceeded, rtu_parity_not_found,
  rtu_parity_wrong_format, rtu_stopbits_not_found, rtu_stopbits_size, tcp_address_not_found,
  tcp_address_wrong_format, tcp_port_not_found, tcp_port_wrong_format, unknown_modbus_device,
}

-- For the constants of the enumeration, with `none` for `SUCCESS`; any other value has the text of
-- `GENERAL_EXCEPTION`.
unfoldable pub get_parsing_error_translation : Option ParsingError → String
get_parsing_error_translation (some action_address_wrong_format) = "Action address has wrong format"
get_parsing_error_translation (some action_data_section_not_found) = "Action data object not found"
get_parsing_error_translation (some action_function_code_wrong_format) =
    "Action fuction code has wrong format"
get_parsing_error_translation (some action_id_wrong_format) =
    "Action data object id has wrong format"
get_parsing_error_translation (some action_intervall_wrong_format) =
    "Action intervall has wrong format"
get_parsing_error_translation (some action_register_address_wrong_format) =
    "Action register address has wrong format"
get_parsing_error_translation (some action_register_quantity_wrong_format) =
    "Action register quantity has wrong format"
get_parsing_error_translation (some device_reset_entries_not_found) =
    "Device reset object not found"
get_parsing_error_translation (some devices_section_empty) = "Device list empty"
get_parsing_error_translation (some devices_section_not_found) = "Device object not found"
get_parsing_error_translation (some extend_section_not_found) = "Configuration object not found"
get_parsing_error_translation (some general_exception) = "Unknown error"
get_parsing_error_translation (some input_parameter_section_not_found) =
    "Input parameter object not found"
get_parsing_error_translation (some interface_section_not_found) = "Interface object not found"
get_parsing_error_translation (some length_position_parameter_not_found) =
    "Device position parameter not found"
get_parsing_error_translation (some length_position_parameter_wrong_type) =
    "Device position parameter has wrong type"
get_parsing_error_translation (some max_connections_limit_exceeded) =
    "Limit of connections exceeded"
get_parsing_error_translation (some max_connections_not_found) = "Max connections object not found"
get_parsing_error_translation (some offset_position_parameter_not_found) =
    "Offset position parameter not found"
get_parsing_error_translation (some offset_position_parameter_wrong_type) =
    "Offset position parameter has wrong type"
get_parsing_error_translation (some output_parameter_section_not_found) =
    "Output parameter object not found"
get_parsing_error_translation (some process_image_object_empty) = "Process image object empty"
get_parsing_error_translation (some process_image_wrong_type) = "Process image image has wrong type"
get_parsing_error_translation (some product_name_not_found) = "Product type not found"
get_parsing_error_translation (some product_type_section_empty) = "Product name not found"
get_parsing_error_translation (some product_type_section_not_found) = "Product type empty"
get_parsing_error_translation (some rtu_baudrate_not_found) =
    "Baud rate for RTU connection not found"
get_parsing_error_translation (some rtu_baudrate_wrong_format) =
    "Baud rate for RTU connection has wrong format"
get_parsing_error_translation (some rtu_databits_not_found) =
    "Data bits for RTU connection not found"
get_parsing_error_translation (some rtu_databits_size) =
    "Data bits for RTU connection has wrong size"
get_parsing_error_translation (some rtu_device_path_length_exceeded) =
    "Device path for RTU connection length exceeded"
get_parsing_error_translation (some rtu_device_path_not_found) =
    "Device path for RTU connection not found"
get_parsing_error_translation (some rtu_modbus_address_not_found) =
    "Modbus address for RTU connection not found"
get_parsing_error_translation (some rtu_modbus_address_size) =
    "Modbus address for RTU connection has wrong size"
get_parsing_error_translation (some rtu_parity_length_exceeded) =
    "Parity for RTU connection length exceeded"
get_parsing_error_translation (some rtu_parity_not_found) = "Parity for RTU connection not found"
get_parsing_error_translation (some rtu_parity_wrong_format) =
    "Parity for RTU connection has wrong format"
get_parsing_error_translation (some rtu_stopbits_not_found) =
    "Stop bits for RTU connection not found"
get_parsing_error_translation (some rtu_stopbits_size) =
    "Stop bits for RTU connection has wrong size"
get_parsing_error_translation (some tcp_address_not_found) = "IP address not found"
get_parsing_error_translation (some tcp_address_wrong_format) = "IP address has wrong format"
get_parsing_error_translation (some tcp_port_not_found) = "TCP port not found"
get_parsing_error_translation (some tcp_port_wrong_format) = "TCP port has wrong format"
get_parsing_error_translation (some unknown_modbus_device) = "Modbus device is unknown"
get_parsing_error_translation none = "Success"
