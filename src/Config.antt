-- ===== src/Config.antt =====
-- The data of src/modbusconfig.h: function codes, error codes, limits, and the
-- configurations of a master and of a slave.
-- Enumerations are kept as the numbers that go over the wire and into the process image.
use revpi_modbus.Prelude.{ℕ, Bool, ◌||◌, ◌==◌, List}

-- `EModbusFunction`.
abbrev pub read_coils : ℕ
read_coils = 0x01

abbrev pub read_discrete_inputs : ℕ
read_discrete_inputs = 0x02

abbrev pub read_holding_registers : ℕ
read_holding_registers = 0x03

abbrev pub read_input_registers : ℕ
read_input_registers = 0x04

abbrev pub write_single_coil : ℕ
write_single_coil = 0x05

abbrev pub write_single_register : ℕ
write_single_register = 0x06

abbrev pub write_multiple_coils : ℕ
write_multiple_coils = 0x0f

abbrev pub write_multiple_registers : ℕ
write_multiple_registers = 0x10

abbrev pub report_slave_id : ℕ
report_slave_id = 0x11

abbrev pub write_mask_register : ℕ
write_mask_register = 0x16

abbrev pub write_and_read_registers : ℕ
write_and_read_registers = 0x17

-- `EModbusErrors`.
abbrev pub no_error : ℕ
no_error = 0x00

abbrev pub no_device : ℕ
no_device = 0x10

abbrev pub no_response_from_device : ℕ
no_response_from_device = 0x11

abbrev pub internal_error : ℕ
internal_error = 0xf0

-- `MAX_REGISTER_SIZE_PER_ACTION`: the size of a master's data buffer, in bytes.
abbrev pub max_register_size_per_action : ℕ
max_register_size_per_action = 256

-- `TModbusAction`.
pub record ModbusAction : Type 0 where
  pub action_id : ℕ
  pub slave_address : ℕ
  pub function_code : ℕ
  pub start_register : ℕ
  pub register_count : ℕ
  pub interval_us : ℕ
  pub start_byte_process_data : ℕ
  pub start_bit_process_data : ℕ
  pub status_byte_offset : ℕ
  pub reset_status_byte_offset : ℕ
  pub reset_status_bit_offset : ℕ

-- The functions that move single bits, whose data offset is a byte and a bit.
abbrev pub is_bit_function : ℕ → Bool
is_bit_function fc =
    fc == read_coils
    || fc == read_discrete_inputs
    || fc == write_single_coil
    || fc == write_multiple_coils

-- `MODBUS_RTU_MIN_DATABITS` to `MODBUS_RTU_MAX_STOPBITS`.
abbrev pub rtu_min_databits : ℕ
rtu_min_databits = 5

abbrev pub rtu_max_databits : ℕ
rtu_max_databits = 8

abbrev pub rtu_min_stopbits : ℕ
rtu_min_stopbits = 1

abbrev pub rtu_max_stopbits : ℕ
rtu_max_stopbits = 2

-- `INET_ADDRSTRLEN` and `PATH_MAX` of Linux, the sizes of two strings.
abbrev pub inet_addrstrlen : ℕ
inet_addrstrlen = 16

abbrev pub path_max : ℕ
path_max = 4096

-- `TTcpConfig`. Strings are ASCII codes, without the final 0.
pub record TcpConfig : Type 0 where
  pub ip_address : List ℕ
  pub port : ℕ
  pub max_modbus_connections : ℕ

-- `TRtuConfig`, less the vendor, the model and the serial number, which nothing sets or reads.
pub record RtuConfig : Type 0 where
  pub baud : ℕ
  pub parity : ℕ
  pub databits : ℕ
  pub stopbits : ℕ
  pub device_modbus_address : ℕ
  pub device_file_path : List ℕ

-- `eProtocol` with the member of the union that it selects.
pub data Protocol : Type 0 where
  tcp : TcpConfig → Protocol
  rtu : RtuConfig → Protocol

-- `TModbusDeviceConfiguration`. The offsets are the bit patterns of an `int32_t`.
pub record DeviceConfiguration : Type 0 where
  pub protocol : Protocol
  pub device_status_byte_offset : ℕ
  pub device_status_reset_byte_offset : ℕ

-- `TModbusSlaveDataSizeConfig`: how many of each.
pub record SlaveDataSizeConfig : Type 0 where
  pub discrete_inputs : ℕ
  pub coils : ℕ
  pub input_registers : ℕ
  pub holding_registers : ℕ

-- `TProcessImageConfiguration`: offsets in bytes, lengths in bits or bytes.
pub record ProcessImageConfiguration : Type 0 where
  pub discrete_inputs_offset : ℕ
  pub discrete_inputs_length : ℕ
  pub coils_input_offset : ℕ
  pub coils_length : ℕ
  pub input_registers_offset : ℕ
  pub input_registers_length : ℕ
  pub holding_registers_input_offset : ℕ
  pub holding_registers_length : ℕ

-- `TModbusMasterConfiguration`. The count of the actions is kept beside them.
pub record MasterConfiguration : Type 0 where
  pub master_device : DeviceConfiguration
  pub action_count : ℕ
  pub action_list : List ModbusAction

-- `TModbusSlaveConfiguration`.
pub record SlaveConfiguration : Type 0 where
  pub slave_device : DeviceConfiguration
  pub data_config : SlaveDataSizeConfig
  pub process_image_config : ProcessImageConfiguration
