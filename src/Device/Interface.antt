-- ===== src/Device/Interface.antt =====
-- The interface of a device in src/piConfigParser/piConfigParser.c: its address and port, or the
-- settings of its serial line.
use revpi_modbus.Device.Keys.{
  rtu_stopbits_key, rtu_databits_key, any_address, rtu_parity_key, slave_tcp_max_connections_key,
  master_rtu_product_type, slave_tcp_product_type, mem_key, rtu_baudrate_key, master_tcp_port_key,
  rtu_modbus_address_key, master_tcp_product_type, slave_rtu_product_type, product_type_key,
  master_tcp_ip_address_key, slave_tcp_port_key, rtu_device_path_key,
}
use revpi_modbus.Prelude.{
  false, true, ℕ, ◌%◌, ◌^◌, ◌-◌, ◌==◌, ◌&&◌, ◌||◌, if◌then◌else◌, Bool, Option, none, some, List,
  [], ◌∷◌, ltb, leb, length, get_elem?,
}
use revpi_modbus.Config.{
  rtu_max_stopbits, rtu_min_stopbits, rtu_max_databits, rtu, tcp, TcpConfig, RtuConfig, Protocol,
  DeviceConfiguration, inet_addrstrlen, path_max, rtu_min_databits,
}
use revpi_modbus.Parser.{
  rtu_stopbits_size, rtu_stopbits_not_found, rtu_databits_size, rtu_databits_not_found,
  max_connections_limit_exceeded, rtu_parity_not_found, unknown_modbus_device,
  rtu_baudrate_wrong_format, max_connections_not_found, rtu_modbus_address_size,
  rtu_baudrate_not_found, tcp_port_wrong_format, rtu_modbus_address_not_found,
  interface_section_not_found, tcp_port_not_found, rtu_device_path_length_exceeded,
  tcp_address_wrong_format, rtu_parity_length_exceeded, tcp_address_not_found,
  rtu_parity_wrong_format, product_type_section_not_found, product_type_section_empty,
  rtu_device_path_not_found, Libraries, Text, ParsingError, starts_with,
}
use revpi_modbus.Device.Results.{map_ok, Result, ok, error, ◌>>=◌, ◌>>◌, require, found}

-- `json_type`; a NULL pointer has the type `json_null`.
pub data JsonType : Type 0 where
  json_null json_boolean json_double json_int json_object json_array json_string : JsonType

-- What this part of the file takes from json-c and from the platform besides: the type of a value,
-- the parser, `CHAR_MAX`, and `calloc`, by the number of the device that it makes an entry for.
pub record Platform (lib : Libraries) : Type 0 where
  pub json_type : lib.Json → JsonType
  pub json_tokener_parse : Text → Option lib.Json
  pub char_max : ℕ
  pub allocates_entry : ℕ → Bool

abbrev pub is_string : JsonType → Bool
is_string json_string = true
is_string _ = false

abbrev pub is_null : JsonType → Bool
is_null json_null = true
is_null _ = false

abbrev pub is_object : JsonType → Bool
is_object json_object = true
is_object _ = false

-- `memcmp(productType, type, strlen(productType)) == 0`.
unfoldable pub has_type : (product_type type : Text) → Bool
has_type product_type type = starts_with product_type type

-- The byte for a parity of the configuration: `N`, `E` or `O`.
unfoldable pub parity_of : ℕ → Result ℕ
parity_of c =
    if c == 49
    then ok 69
    else if c == 50
    then ok 79
    else if c == 48
    then ok 78
    else error rtu_parity_wrong_format

-- The first byte of a string may be its end.
unfoldable pub parse_parity : Text → Result ℕ
parse_parity [] = error rtu_parity_wrong_format
parse_parity (c ∷ []) = parity_of c
parse_parity (c ∷ d ∷ rest) = error rtu_parity_length_exceeded

module _ (lib : Libraries) (platform : Platform lib) where
  open lib use {Json, object_get, get_string, get_array, strtoumax}
  open platform use {json_type, char_max}

  -- A string among the elements of an array; one outside of the array is NULL.
  unfoldable pub string_element : List Json → ℕ → Option Text
  string_element elements i = elim (get_elem? elements i) [
    | none ↦ none
    | some j ↦ if is_string (json_type j) then some (get_string j) else none
  ]

  unfoldable pub get_device_string_parameter : Json → Text → Option Text
  get_device_string_parameter mem key = elim (object_get mem key) [
    | none ↦ none
    | some entry ↦ elim (get_array entry) [
      | none ↦ none
      | some elements ↦ string_element elements 1
    ]
  ]

  unfoldable pub get_device_product_type : Json → Result Text
  get_device_product_type device = do
    type ← found product_type_section_empty (object_get device product_type_key)
    require (is_string (json_type type)) product_type_section_empty
    ok (get_string type)

  -- A number of the interface, in 32 bits and from `min` to `max`, with the errors where it is
  -- missing and where it is wrong.
  unfoldable pub get_number :
      Json → Text → (missing wrong : ParsingError) → (min max : ℕ) → Result ℕ
  get_number mem key missing wrong min max = do
    text ← found missing (get_device_string_parameter mem key)
    n ← found wrong (strtoumax text)
    require (leb min (n % 2 ^ 32) && leb (n % 2 ^ 32) max) wrong
    ok (n % 2 ^ 32)

  unfoldable pub parse_master_tcp : Json → Result TcpConfig
  parse_master_tcp mem = do
    ip ← found tcp_address_not_found (get_device_string_parameter mem master_tcp_ip_address_key)
    require (ltb (length ip) inet_addrstrlen) tcp_address_wrong_format
    port ← get_number mem master_tcp_port_key tcp_port_not_found tcp_port_wrong_format 0 0xffff
    ok (record { ip_address = ip; port = port; max_modbus_connections = 0 })

  unfoldable pub parse_slave_tcp : Json → Result TcpConfig
  parse_slave_tcp mem = do
    port ← get_number mem slave_tcp_port_key tcp_port_not_found tcp_port_wrong_format 0 0xffff
    connections ←
        get_number mem slave_tcp_max_connections_key max_connections_not_found
          max_connections_limit_exceeded 0 0xffff
    ok (record { ip_address = any_address; port = port; max_modbus_connections = connections })

  -- The address is that of a slave; a master has none.
  unfoldable pub parse_address : Json → Text → Result ℕ
  parse_address mem product_type =
      if has_type product_type slave_rtu_product_type
      then get_number mem rtu_modbus_address_key rtu_modbus_address_not_found
          rtu_modbus_address_size 0 char_max
      else ok 0

  unfoldable pub parse_rtu : Json → Text → Result RtuConfig
  parse_rtu mem product_type = do
    path ← found rtu_device_path_not_found (get_device_string_parameter mem rtu_device_path_key)
    require (ltb (length path) path_max) rtu_device_path_length_exceeded
    baud ←
        get_number mem rtu_baudrate_key rtu_baudrate_not_found rtu_baudrate_wrong_format 0
          (2 ^ 32 - 1)
    text ← found rtu_parity_not_found (get_device_string_parameter mem rtu_parity_key)
    parity ← parse_parity text
    databits ←
        get_number mem rtu_databits_key rtu_databits_not_found rtu_databits_size rtu_min_databits
          rtu_max_databits
    stopbits ←
        get_number mem rtu_stopbits_key rtu_stopbits_not_found rtu_stopbits_size rtu_min_stopbits
          rtu_max_stopbits
    address ← parse_address mem product_type
    ok (record {
      baud = baud;
      parity = parity;
      databits = databits;
      stopbits = stopbits;
      device_modbus_address = address % 2 ^ 8;
      device_file_path = path;
    })

  -- The types are tried in this order.
  unfoldable pub parse_protocol : Json → Text → Result Protocol
  parse_protocol mem type =
      if has_type type master_tcp_product_type
      then map_ok tcp (parse_master_tcp mem)
      else if has_type type slave_tcp_product_type
      then map_ok tcp (parse_slave_tcp mem)
      else if has_type type slave_rtu_product_type || has_type type master_rtu_product_type
      then map_ok rtu (parse_rtu mem type)
      else error unknown_modbus_device

  unfoldable pub parse_device_modbus_configuration : Json → Result DeviceConfiguration
  parse_device_modbus_configuration device = do
    type ← found product_type_section_not_found (object_get device product_type_key)
    require (is_string (json_type type)) product_type_section_empty
    mem ← found interface_section_not_found (object_get device mem_key)
    protocol ← parse_protocol mem (get_string type)
    ok (record {
      protocol = protocol;
      device_status_byte_offset = 0;
      device_status_reset_byte_offset = 0;
    })
