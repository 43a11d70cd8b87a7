-- ===== src/Device.antt =====
-- src/piConfigParser/piConfigParser.c: the devices of the PiCtory configuration, each with its
-- interface and its part of the process image.
mod Keys
pub mod Results
mod Interface
mod Section
pub mod File
pub mod Messages
pub mod Texts
pub mod Reading
pub mod Bounds
pub mod Lists
pub mod Slaves
pub mod Variables
pub mod Extents
pub use Keys.*
pub use Interface.{
  JsonType, json_null, json_boolean, json_double, json_int, json_object, json_array, json_string,
  Platform, is_string, is_null, is_object,
}
unfoldable pub use Interface.{
  has_type, parity_of, parse_parity, string_element, get_device_string_parameter,
  get_device_product_type, get_number, parse_master_tcp, parse_slave_tcp, parse_address, parse_rtu,
  parse_protocol, parse_device_modbus_configuration,
}
pub use Section.{Extent, Span}
unfoldable pub use Section.{
  get_offset, extend, scan_variables, measure, get_device_process_image_parameter,
}
use revpi_modbus.Device.Results.{ok, error, Result}
use revpi_modbus.Prelude.{
  false, true, Bool, ℕ, suc, ◌+◌, ◌*◌, ◌/◌, ◌%◌, ◌^◌, ◌==◌, ◌||◌, if◌then◌else◌, Option, none, some,
  List, [], ◌∷◌, map, length,
}
use revpi_modbus.Config.{
  ModbusAction, DeviceConfiguration, SlaveDataSizeConfig, ProcessImageConfiguration,
  MasterConfiguration, SlaveConfiguration,
}
use revpi_modbus.External.{Env, M, ◌>>=◌, ◌>>◌, pure, branch, assert}
use revpi_modbus.Parser.{
  devices_section_empty, device_reset_entries_not_found, devices_section_not_found,
  extend_section_not_found, general_exception, Libraries, Text, ParsingError, Parsed, value, skip,
  fail, Position, starts_with, extend_key, inp_key, out_key, get_process_image_device_offset,
  get_variable_parameters, parse_modbus_master_action_list,
}

-- The variables keep their 0 where a section has an error, which is only logged.
abbrev pub section_or_zero : Result Span → Span
section_or_zero (ok s) = s
section_or_zero (error e) = record { offset = 0; length = 0 }

-- What is stored of the two sections; coils and discrete inputs stay at the 0 of `calloc`.
abbrev pub image_of :
    (device : ℕ) (inp out : Span) → SlaveDataSizeConfig × ProcessImageConfiguration
image_of device inp out = (
  record {
    discrete_inputs = 0;
    coils = 0;
    input_registers = out.length / 2 % 2 ^ 16;
    holding_registers = inp.length / 2 % 2 ^ 16;
  },
  record {
    discrete_inputs_offset = 0;
    discrete_inputs_length = 0;
    coils_input_offset = 0;
    coils_length = 0;
    input_registers_offset = (out.offset + device) % 2 ^ 32;
    input_registers_length = out.length;
    holding_registers_input_offset = (inp.offset + device) % 2 ^ 32;
    holding_registers_length = inp.length;
  },
)

-- What is stored of a variable that was looked up; an error is only logged.
abbrev pub store_status : Bool × Position → DeviceConfiguration → DeviceConfiguration
store_status (true, p) d = record d { device_status_byte_offset = p.byte }
store_status (false, p) d = d

abbrev pub store_status_reset : Bool × Position → DeviceConfiguration → DeviceConfiguration
store_status_reset (true, p) d = record d { device_status_reset_byte_offset = p.byte }
store_status_reset (false, p) d = d

-- The entries are tried in turn: one that is read is put before the list, `skip` is `continue`, and
-- an error ends the loop. A list is built from its end.
unfoldable pub parse_devices :
    {Json A : Type 0}
    → (ℕ → Json → M (Parsed A))
    → List Json
    → ℕ
    → List A
    → M (Option ParsingError × List A)
parse_devices parse [] i list = pure (none, list)
parse_devices parse (device ∷ rest) i list = parse i device >>= λ p. elim p [
  | value a ↦ parse_devices parse rest (suc i) (a ∷ list)
  | skip ↦ parse_devices parse rest (suc i) list
  | fail e ↦ pure (some e, list)
]

module _ (lib : Libraries) (platform : Platform lib) where
  open lib use {Json, object_get, entries, get_string, get_array}
  open platform use {json_type, json_tokener_parse, allocates_entry}

  -- `none` stands for a negative result, which is only logged.
  unfoldable pub parse_modbus_slave_device_process_image_config :
      Json → M (Option (SlaveDataSizeConfig × ProcessImageConfiguration))
  parse_modbus_slave_device_process_image_config device =
      elim (get_process_image_device_offset lib device) [
        | none ↦ pure none
        | some offset ↦ elim (object_get device inp_key) [
          | none ↦ pure none
          | some inp ↦
              let inputs = section_or_zero (get_device_process_image_parameter lib platform inp) in
              assert (inputs.length % 2 == 0) >> elim (object_get device out_key) [
                | none ↦ pure none
                | some out ↦
                    let outputs =
                      section_or_zero (get_device_process_image_parameter lib platform out) in
                    assert (outputs.length % 2 == 0) >> pure (some (image_of offset inputs outputs))
              ]
        ]
      ]

  unfoldable pub get_json_devices_array : Text → Result (List Json)
  get_json_devices_array text = elim (json_tokener_parse text) [
    | none ↦ error general_exception
    | some config ↦ elim (object_get config devices_key) [
      | none ↦ error devices_section_not_found
      | some devices ↦ elim (get_array devices) [
        | none ↦ error devices_section_empty
        | some array ↦ ok array
      ]
    ]
  ]

  -- A slave whose entry is allocated.
  unfoldable pub configure_slave : Json → M (Parsed SlaveConfiguration)
  configure_slave device = elim (parse_device_modbus_configuration lib platform device) [
    | error e ↦ pure skip
    | ok d ↦ parse_modbus_slave_device_process_image_config device >>= λ r. pure (elim r [
      | none ↦ skip
      | some image ↦
          value (record { slave_device = d; data_config = image.0; process_image_config = image.1 })
    ])
  ]

  -- One device of the loop, with two types that are looked for.
  unfoldable pub parse_entry :
      {A : Type 0} → (tcp_type rtu_type : Text) → (Json → M (Parsed A)) → ℕ → Json → M (Parsed A)
  parse_entry tcp_type rtu_type configure i device =
      elim (get_device_product_type lib platform device) [
        | error e ↦ pure (fail e)
        | ok type ↦
            branch (has_type type tcp_type || has_type type rtu_type)
              (branch (allocates_entry i) (configure device) (pure skip)) (pure skip)
      ]

  unfoldable pub parse_modbus_slaves_config_data :
      Text → M (Option ParsingError × List SlaveConfiguration)
  parse_modbus_slaves_config_data text = elim (get_json_devices_array text) [
    | error e ↦ pure (some e, [])
    | ok devices ↦
        parse_devices (parse_entry slave_tcp_product_type slave_rtu_product_type configure_slave)
          devices 0 []
  ]

  -- The names of the two status variables are looked for among the entries. The position of one is
  -- passed to the look-up of the next.
  unfoldable pub find_status_offsets :
      Json → List (Text × Json) → Position → DeviceConfiguration → M DeviceConfiguration
  find_status_offsets device [] p d = pure d
  find_status_offsets device ((name, val) ∷ rest) p d =
      branch (starts_with master_status_key name)
        (get_variable_parameters lib device (get_string val) p >>= λ r.
          find_status_offsets device rest r.1 (store_status r d))
        (branch (starts_with master_status_reset_key name)
          (get_variable_parameters lib device (get_string val) p >>= λ r.
            find_status_offsets device rest r.1 (store_status_reset r d))
          (find_status_offsets device rest p d))

  unfoldable pub complete_master :
      Json → DeviceConfiguration → List ModbusAction → (count : ℕ) → M (Parsed MasterConfiguration)
  complete_master device d actions count = elim (object_get device extend_key) [
    | none ↦ pure (fail extend_section_not_found)
    | some extension ↦ elim (object_get extension device_misc_key) [
      | none ↦ pure (fail device_reset_entries_not_found)
      | some misc ↦
          find_status_offsets device (entries misc) (record { byte = 0; bit = 0 }) d >>= λ d'.
          pure (value (record { master_device = d'; action_count = count; action_list = actions }))
    ]
  ]

  -- A master whose entry is allocated.
  unfoldable pub configure_master : Env → Json → M (Parsed MasterConfiguration)
  configure_master env device = elim (parse_device_modbus_configuration lib platform device) [
    | error e ↦ pure skip
    | ok d ↦ parse_modbus_master_action_list env lib device >>= λ r. elim r.0 [
      | some e ↦ pure skip
      | none ↦ complete_master device d r.1 r.2
    ]
  ]

  unfoldable pub parse_modbus_master_config_data :
      Env → Text → M (Option ParsingError × List MasterConfiguration)
  parse_modbus_master_config_data env text = elim (get_json_devices_array text) [
    | error e ↦ pure (some e, [])
    | ok devices ↦
        parse_devices
          (parse_entry master_tcp_product_type master_rtu_product_type (configure_master env))
          devices 0 []
  ]
