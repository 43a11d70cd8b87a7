-- ===== src/Device/Bounds.antt =====
-- The interface that the parser stores for a device: its strings fit and its numbers are in range.
use revpi_modbus.Parser.{
  interface_section_not_found, product_type_section_empty, product_type_section_not_found,
  rtu_stopbits_size, rtu_stopbits_not_found, rtu_databits_size, rtu_databits_not_found,
  rtu_parity_not_found, rtu_baudrate_wrong_format, rtu_baudrate_not_found,
  max_connections_limit_exceeded, max_connections_not_found, tcp_address_wrong_format,
  rtu_device_path_length_exceeded, tcp_address_not_found, rtu_device_path_not_found,
  tcp_port_wrong_format, tcp_port_not_found, ParsingError, Text, Libraries,
}
use revpi_modbus.Device.{
  master_rtu_product_type, slave_rtu_product_type, mem_key, slave_tcp_product_type, is_string,
  master_tcp_product_type, has_type, product_type_key, parse_device_modbus_configuration,
  parse_protocol, parse_address, rtu_stopbits_key, rtu_databits_key, rtu_parity_key,
  rtu_baudrate_key, master_tcp_port_key, slave_tcp_max_connections_key, rtu_device_path_key,
  master_tcp_ip_address_key, slave_tcp_port_key, get_device_string_parameter, parse_rtu, get_number,
  parse_slave_tcp, parse_master_tcp, parity_of, Platform, parse_parity,
}
use revpi_modbus.Prelude.{
  ◌||◌, [], ◌==◌, ◌∷◌, ◌-◌, ◌&&◌, refl, ℕ, ◌%◌, ◌^◌, ◌≤◌, ◌<◌, ◌≡◌, ◌⊎◌, inl, inr, Bool-cases, leb,
  ltb, length, ltb→lt, arith,
}
use revpi_modbus.Config.{
  rtu, path_max, tcp, TcpConfig, RtuConfig, Protocol, DeviceConfiguration, inet_addrstrlen,
}
use revpi_modbus.Device.Results.{
  WhereOk-bind, WhereOk-require, WhereOk-found, WhereOk-map_ok, WhereOk-if, WhereOk-any, WhereOk,
}

pub record TcpIsParsed (c : TcpConfig) : Type 0 where
  pub address_fits : length c.ip_address < inet_addrstrlen
  pub port : c.port < 2 ^ 16
  pub connections : c.max_modbus_connections < 2 ^ 16

pub record RtuIsParsed (c : RtuConfig) : Type 0 where
  pub path_fits : length c.device_file_path < path_max
  pub baud : c.baud < 2 ^ 32
  pub parity : (c.parity ≡ 78) ⊎ ((c.parity ≡ 69) ⊎ (c.parity ≡ 79))
  pub databits : (5 ≤ c.databits) × (c.databits ≤ 8)
  pub stopbits : (1 ≤ c.stopbits) × (c.stopbits ≤ 2)
  pub address : c.device_modbus_address < 2 ^ 8

-- What the parser promises of an interface: a terminated string fits its array, ports and limits
-- have 16 bits, and a serial line has a parity `N`, `E` or `O`, 5 to 8 data bits, and 1 or 2 stop
-- bits.
abbrev pub ProtocolIsParsed : Protocol → Type 0
ProtocolIsParsed (tcp c) = TcpIsParsed c
ProtocolIsParsed (rtu c) = RtuIsParsed c

abbrev pub DeviceIsParsed : DeviceConfiguration → Type 0
DeviceIsParsed d = ProtocolIsParsed d.protocol

parse_parity-bounds :
    (text : Text) → WhereOk (λ p. (p ≡ 78) ⊎ ((p ≡ 69) ⊎ (p ≡ 79))) (parse_parity text)
unfolding parse_parity parity_of
parse_parity-bounds [] = tt
parse_parity-bounds (c ∷ d ∷ rest) = tt
parse_parity-bounds (c ∷ []) = elim (Bool-cases (c == 49)) [
  | inl even ↦ rw (parse_parity, parity_of, even) (inr (inl refl))
  | inr e₁ ↦ elim (Bool-cases (c == 50)) [
    | inl odd ↦ rw (parse_parity, parity_of, e₁, odd) (inr (inr refl))
    | inr e₂ ↦ elim (Bool-cases (c == 48)) [
      | inl none_set ↦ rw (parse_parity, parity_of, e₁, e₂, none_set) (inl refl)
      | inr e₃ ↦ rw (parse_parity, parity_of, e₁, e₂, e₃) tt
    ]
  ]
]

module _ (lib : Libraries) (platform : Platform lib) where
  open lib use {Json, object_get, get_string, strtoumax}
  open platform use {json_type, char_max}

  get_number-bounds :
      (mem : Json) (key : Text) (missing wrong : ParsingError) (min max : ℕ)
      → WhereOk (λ n. (min ≤ n) × (n ≤ max)) (get_number lib platform mem key missing wrong min max)
  unfolding get_number
  get_number-bounds mem key missing wrong min max =
      WhereOk-found _ (get_device_string_parameter lib platform mem key) missing _ λ text.
        WhereOk-found _ (strtoumax text) wrong _ λ n.
          WhereOk-require _ (leb min (n % 2 ^ 32) && leb (n % 2 ^ 32) max) wrong _
            λ inside. ground arith

  parse_master_tcp-TcpIsParsed :
      (mem : Json) → WhereOk TcpIsParsed (parse_master_tcp lib platform mem)
  unfolding parse_master_tcp
  parse_master_tcp-TcpIsParsed mem =
      WhereOk-found TcpIsParsed
        (get_device_string_parameter lib platform mem master_tcp_ip_address_key)
        tcp_address_not_found _
        λ ip.
          WhereOk-require TcpIsParsed (ltb (length ip) inet_addrstrlen) tcp_address_wrong_format _
            λ fits.
              WhereOk-bind (λ n. (0 ≤ n) × (n ≤ 0xffff)) TcpIsParsed _ _
                (get_number-bounds mem master_tcp_port_key tcp_port_not_found tcp_port_wrong_format
                  0 0xffff)
                λ port ok. record {
                  address_fits = ltb→lt _ _ fits;
                  port = omega (arith, ok.1);
                  connections = omega arith;
                }

  parse_slave_tcp-TcpIsParsed :
      (mem : Json) → WhereOk TcpIsParsed (parse_slave_tcp lib platform mem)
  unfolding parse_slave_tcp
  parse_slave_tcp-TcpIsParsed mem =
      WhereOk-bind (λ n. (0 ≤ n) × (n ≤ 0xffff)) TcpIsParsed _ _
        (get_number-bounds mem slave_tcp_port_key tcp_port_not_found tcp_port_wrong_format 0 0xffff)
        λ port ok.
          WhereOk-bind (λ n. (0 ≤ n) × (n ≤ 0xffff)) TcpIsParsed _ _
            (get_number-bounds mem slave_tcp_max_connections_key max_connections_not_found
              max_connections_limit_exceeded 0 0xffff)
            λ connections ok'. record {
              address_fits = omega arith;
              port = omega (arith, ok.1);
              connections = omega (arith, ok'.1);
            }

  parse_rtu-RtuIsParsed :
      (mem : Json) (type : Text) → WhereOk RtuIsParsed (parse_rtu lib platform mem type)
  unfolding parse_rtu
  parse_rtu-RtuIsParsed mem type =
      WhereOk-found RtuIsParsed (get_device_string_parameter lib platform mem rtu_device_path_key)
        rtu_device_path_not_found _
        λ path.
          WhereOk-require RtuIsParsed (ltb (length path) path_max) rtu_device_path_length_exceeded _
            λ fits.
              WhereOk-bind (λ n. (0 ≤ n) × (n ≤ 2 ^ 32 - 1)) RtuIsParsed _ _
                (get_number-bounds mem rtu_baudrate_key rtu_baudrate_not_found
                  rtu_baudrate_wrong_format 0 (2 ^ 32 - 1))
                λ baud ok_baud.
                  WhereOk-found RtuIsParsed
                    (get_device_string_parameter lib platform mem rtu_parity_key)
                    rtu_parity_not_found _
                    λ text.
                      WhereOk-bind _ RtuIsParsed (parse_parity text) _ (parse_parity-bounds text)
                        λ parity ok_parity.
                          WhereOk-bind (λ n. (5 ≤ n) × (n ≤ 8)) RtuIsParsed _ _
                            (get_number-bounds mem rtu_databits_key rtu_databits_not_found
                              rtu_databits_size 5 8)
                            λ databits ok_databits.
                              WhereOk-bind (λ n. (1 ≤ n) × (n ≤ 2)) RtuIsParsed _ _
                                (get_number-bounds mem rtu_stopbits_key rtu_stopbits_not_found
                                  rtu_stopbits_size 1 2)
                                λ stopbits ok_stopbits.
                                  WhereOk-bind (λ n. Unit) RtuIsParsed
                                    (parse_address lib platform mem type) _
                                    (WhereOk-any (parse_address lib platform mem type))
                                    λ address ok_address. record {
                                      path_fits = ltb→lt _ _ fits;
                                      baud = omega (arith, ok_baud.1);
                                      parity = ok_parity;
                                      databits = ok_databits;
                                      stopbits = ok_stopbits;
                                      address = omega arith;
                                    }

  parse_protocol-ProtocolIsParsed :
      (mem : Json) (type : Text) → WhereOk ProtocolIsParsed (parse_protocol lib platform mem type)
  unfolding parse_protocol
  parse_protocol-ProtocolIsParsed mem type =
      WhereOk-if ProtocolIsParsed (has_type type master_tcp_product_type) _ _
        (WhereOk-map_ok TcpIsParsed ProtocolIsParsed tcp (parse_master_tcp lib platform mem)
          (parse_master_tcp-TcpIsParsed mem) λ c p. p)
        (WhereOk-if ProtocolIsParsed (has_type type slave_tcp_product_type) _ _
          (WhereOk-map_ok TcpIsParsed ProtocolIsParsed tcp (parse_slave_tcp lib platform mem)
            (parse_slave_tcp-TcpIsParsed mem) λ c p. p)
          (WhereOk-if ProtocolIsParsed
            (has_type type slave_rtu_product_type || has_type type master_rtu_product_type) _ _
            (WhereOk-map_ok RtuIsParsed ProtocolIsParsed rtu (parse_rtu lib platform mem type)
              (parse_rtu-RtuIsParsed mem type) λ c p. p)
            tt))

  -- Whatever the configuration of a device is, an interface that is stored without an error is one
  -- that its thread can rely on.
  pub parse_device_modbus_configuration_lem :
      (device : Json)
      → WhereOk DeviceIsParsed (parse_device_modbus_configuration lib platform device)
  unfolding parse_device_modbus_configuration
  parse_device_modbus_configuration_lem device =
      WhereOk-found DeviceIsParsed (object_get device product_type_key)
        product_type_section_not_found _
        λ type.
          WhereOk-require DeviceIsParsed (is_string (json_type type)) product_type_section_empty _
            λ string.
              WhereOk-found DeviceIsParsed (object_get device mem_key) interface_section_not_found _
                λ mem.
                  WhereOk-bind ProtocolIsParsed DeviceIsParsed _ _
                    (parse_protocol-ProtocolIsParsed mem (get_string type)) λ protocol p. p
