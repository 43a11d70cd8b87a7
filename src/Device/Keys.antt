-- ===== src/Device/Keys.antt =====
-- The names of src/piConfigParser/piConfigParser.h and piConfigParser.c for the configuration of a
-- device, in ASCII.
use revpi_modbus.Prelude.{[], ◌∷◌}
use revpi_modbus.Parser.{Text}

-- `productType`.
abbrev pub product_type_key : Text
product_type_key = 112 ∷ 114 ∷ 111 ∷ 100 ∷ 117 ∷ 99 ∷ 116 ∷ 84 ∷ 121 ∷ 112 ∷ 101 ∷ []

-- `mem`.
abbrev pub mem_key : Text
mem_key = 109 ∷ 101 ∷ 109 ∷ []

-- `Devices`.
abbrev pub devices_key : Text
devices_key = 68 ∷ 101 ∷ 118 ∷ 105 ∷ 99 ∷ 101 ∷ 115 ∷ []

-- `deviceMisc`.
abbrev pub device_misc_key : Text
device_misc_key = 100 ∷ 101 ∷ 118 ∷ 105 ∷ 99 ∷ 101 ∷ 77 ∷ 105 ∷ 115 ∷ 99 ∷ []

-- `ModbusMasterStatus`.
abbrev pub master_status_key : Text
master_status_key =
    77 ∷ 111 ∷ 100 ∷ 98 ∷ 117 ∷ 115 ∷ 77 ∷ 97 ∷ 115 ∷ 116 ∷ 101 ∷ 114 ∷ 83 ∷ 116 ∷ 97 ∷ 116 ∷ 117
    ∷ 115 ∷ []

-- `MasterStatusReset`.
abbrev pub master_status_reset_key : Text
master_status_reset_key =
    77 ∷ 97 ∷ 115 ∷ 116 ∷ 101 ∷ 114 ∷ 83 ∷ 116 ∷ 97 ∷ 116 ∷ 117 ∷ 115 ∷ 82 ∷ 101 ∷ 115 ∷ 101 ∷ 116
    ∷ []

-- `24577`.
abbrev pub slave_tcp_product_type : Text
slave_tcp_product_type = 50 ∷ 52 ∷ 53 ∷ 55 ∷ 55 ∷ []

-- `24578`.
abbrev pub slave_rtu_product_type : Text
slave_rtu_product_type = 50 ∷ 52 ∷ 53 ∷ 55 ∷ 56 ∷ []

-- `24579`.
abbrev pub master_tcp_product_type : Text
master_tcp_product_type = 50 ∷ 52 ∷ 53 ∷ 55 ∷ 57 ∷ []

-- `24580`.
abbrev pub master_rtu_product_type : Text
master_rtu_product_type = 50 ∷ 52 ∷ 53 ∷ 56 ∷ 48 ∷ []

-- `0`.
abbrev pub master_tcp_ip_address_key : Text
master_tcp_ip_address_key = 48 ∷ []

-- `1`.
abbrev pub master_tcp_port_key : Text
master_tcp_port_key = 49 ∷ []

-- `0`.
abbrev pub slave_tcp_port_key : Text
slave_tcp_port_key = 48 ∷ []

-- `1`.
abbrev pub slave_tcp_max_connections_key : Text
slave_tcp_max_connections_key = 49 ∷ []

-- `0`.
abbrev pub rtu_device_path_key : Text
rtu_device_path_key = 48 ∷ []

-- `1`.
abbrev pub rtu_baudrate_key : Text
rtu_baudrate_key = 49 ∷ []

-- `2`.
abbrev pub rtu_parity_key : Text
rtu_parity_key = 50 ∷ []

-- `3`.
abbrev pub rtu_databits_key : Text
rtu_databits_key = 51 ∷ []

-- `4`.
abbrev pub rtu_stopbits_key : Text
rtu_stopbits_key = 52 ∷ []

-- `5`.
abbrev pub rtu_modbus_address_key : Text
rtu_modbus_address_key = 53 ∷ []

-- `0.0.0.0`.
abbrev pub any_address : Text
any_address = 48 ∷ 46 ∷ 48 ∷ 46 ∷ 48 ∷ 46 ∷ 48 ∷ []
