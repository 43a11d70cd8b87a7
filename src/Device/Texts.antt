-- ===== src/Device/Texts.antt =====
-- The error codes by their texts.
use Prim.Native.String.{String}
use text.Mathlib.Text.{◌==◌}
use revpi_modbus.Prelude.{List, [], ◌∷◌, ◌≡◌, refl, Option, none, some, Bool, if◌then◌else◌}
use revpi_modbus.Device.Messages.{get_parsing_error_translation}
use revpi_modbus.Parser.{
  ParsingError, action_address_wrong_format, action_data_section_not_found,
  action_function_code_wrong_format, action_id_wrong_format, action_intervall_wrong_format,
  action_register_address_wrong_format, action_register_quantity_wrong_format,
  device_reset_entries_not_found, devices_section_empty, devices_section_not_found,
  extend_section_not_found, general_exception, input_parameter_section_not_found,
  interface_section_not_found, length_position_parameter_not_found,
  length_position_parameter_wrong_type, max_connections_limit_exceeded, max_connections_not_found,
  offset_position_parameter_not_found, offset_position_parameter_wrong_type,
  output_parameter_section_not_found, process_image_object_empty, process_image_wrong_type,
  product_name_not_found, product_type_section_empty, product_type_section_not_found,
  rtu_baudrate_not_found, rtu_baudrate_wrong_format, rtu_databits_not_found, rtu_databits_size,
  rtu_device_path_length_exceeded, rtu_device_path_not_found, rtu_modbus_address_not_found,
  rtu_modbus_address_size, rtu_parity_length_exceeded, rtu_parity_not_found,
  rtu_parity_wrong_format, rtu_stopbits_not_found, rtu_stopbits_size, tcp_address_not_found,
  tcp_address_wrong_format, tcp_port_not_found, tcp_port_wrong_format, unknown_modbus_device,
}

-- Every result, as the texts and the codes are looked up.
abbrev all_results : List (Option ParsingError)
all_results =
    none
    ∷ some action_address_wrong_format
    ∷ some action_data_section_not_found
    ∷ some action_function_code_wrong_format
    ∷ some action_id_wrong_format
    ∷ some action_intervall_wrong_format
    ∷ some action_register_address_wrong_format
    ∷ some action_register_quantity_wrong_format
    ∷ some device_reset_entries_not_found
    ∷ some devices_section_empty
    ∷ some devices_section_not_found
    ∷ some extend_section_not_found
    ∷ some general_exception
    ∷ some input_parameter_section_not_found
    ∷ some interface_section_not_found
    ∷ some length_position_parameter_not_found
    ∷ some length_position_parameter_wrong_type
    ∷ some max_connections_limit_exceeded
    ∷ some max_connections_not_found
    ∷ some offset_position_parameter_not_found
    ∷ some offset_position_parameter_wrong_type
    ∷ some output_parameter_section_not_found
    ∷ some process_image_object_empty
    ∷ some process_image_wrong_type
    ∷ some product_name_not_found
    ∷ some product_type_section_empty
    ∷ some product_type_section_not_found
    ∷ some rtu_baudrate_not_found
    ∷ some rtu_baudrate_wrong_format
    ∷ some rtu_databits_not_found
    ∷ some rtu_databits_size
    ∷ some rtu_device_path_length_exceeded
    ∷ some rtu_device_path_not_found
    ∷ some rtu_modbus_address_not_found
    ∷ some rtu_modbus_address_size
    ∷ some rtu_parity_length_exceeded
    ∷ some rtu_parity_not_found
    ∷ some rtu_parity_wrong_format
    ∷ some rtu_stopbits_not_found
    ∷ some rtu_stopbits_size
    ∷ some tcp_address_not_found
    ∷ some tcp_address_wrong_format
    ∷ some tcp_port_not_found
    ∷ some tcp_port_wrong_format
    ∷ some unknown_modbus_device
    ∷ []

abbrev first_with :
    (Option ParsingError → Bool) → List (Option ParsingError) → Option (Option ParsingError)
first_with is [] = none
first_with is (r ∷ rest) = if is r then some r else first_with is rest

pub result_with : String → Option (Option ParsingError)
result_with text = first_with (λ r. get_parsing_error_translation r == text) all_results

-- Each result has a text of its own, by which it is found again.
pub result_with-translation :
    (r : Option ParsingError) → result_with (get_parsing_error_translation r) ≡ some r
unfolding result_with get_parsing_error_translation
result_with-translation none = refl
result_with-translation (some action_address_wrong_format) = refl
result_with-translation (some action_data_section_not_found) = refl
result_with-translation (some action_function_code_wrong_format) = refl
result_with-translation (some action_id_wrong_format) = refl
result_with-translation (some action_intervall_wrong_format) = refl
result_with-translation (some action_register_address_wrong_format) = refl
result_with-translation (some action_register_quantity_wrong_format) = refl
result_with-translation (some device_reset_entries_not_found) = refl
result_with-translation (some devices_section_empty) = refl
result_with-translation (some devices_section_not_found) = refl
result_with-translation (some extend_section_not_found) = refl
result_with-translation (some general_exception) = refl
result_with-translation (some input_parameter_section_not_found) = refl
result_with-translation (some interface_section_not_found) = refl
result_with-translation (some length_position_parameter_not_found) = refl
result_with-translation (some length_position_parameter_wrong_type) = refl
result_with-translation (some max_connections_limit_exceeded) = refl
result_with-translation (some max_connections_not_found) = refl
result_with-translation (some offset_position_parameter_not_found) = refl
result_with-translation (some offset_position_parameter_wrong_type) = refl
result_with-translation (some output_parameter_section_not_found) = refl
result_with-translation (some process_image_object_empty) = refl
result_with-translation (some process_image_wrong_type) = refl
result_with-translation (some product_name_not_found) = refl
result_with-translation (some product_type_section_empty) = refl
result_with-translation (some product_type_section_not_found) = refl
result_with-translation (some rtu_baudrate_not_found) = refl
result_with-translation (some rtu_baudrate_wrong_format) = refl
result_with-translation (some rtu_databits_not_found) = refl
result_with-translation (some rtu_databits_size) = refl
result_with-translation (some rtu_device_path_length_exceeded) = refl
result_with-translation (some rtu_device_path_not_found) = refl
result_with-translation (some rtu_modbus_address_not_found) = refl
result_with-translation (some rtu_modbus_address_size) = refl
result_with-translation (some rtu_parity_length_exceeded) = refl
result_with-translation (some rtu_parity_not_found) = refl
result_with-translation (some rtu_parity_wrong_format) = refl
result_with-translation (some rtu_stopbits_not_found) = refl
result_with-translation (some rtu_stopbits_size) = refl
result_with-translation (some tcp_address_not_found) = refl
result_with-translation (some tcp_address_wrong_format) = refl
result_with-translation (some tcp_port_not_found) = refl
result_with-translation (some tcp_port_wrong_format) = refl
result_with-translation (some unknown_modbus_device) = refl
