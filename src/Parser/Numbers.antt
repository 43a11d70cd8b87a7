-- ===== src/Parser/Numbers.antt =====
-- What the parser makes of an action whose numbers are all there and in range.
use revpi_modbus.Prelude.{
  ap, refl, ◌-◌, ℕ, ◌*◌, ◌%◌, ◌^◌, ◌≤◌, ◌<◌, ◌≡◌, Option, some, arith, true, ◌&&◌, leb,
}
use revpi_modbus.External.{History, done, ◌>>=◌}
use revpi_modbus.Parser.{
  action_intervall_wrong_format, action_register_quantity_wrong_format,
  action_register_address_wrong_format, action_function_code_wrong_format,
  action_address_wrong_format, action_id_wrong_format, Libraries, Text, ParsingError, value,
  parse_number, parse_numbers, parse_slave_address, parse_function_code, parse_register_address,
  parse_quantity, parse_interval, get_modbus_action_matching_name_string_value, action_id_key,
  slave_address_key, function_code_key, register_address_key, quantity_of_registers_key,
  action_interval_key, empty_action,
}

-- The numbers of an action, as they are configured.
pub record Numbers : Type 0 where
  pub id : ℕ
  pub address : ℕ
  pub function : ℕ
  pub start : ℕ
  pub count : ℕ
  pub interval_ms : ℕ

module _ (lib : Libraries) (actions : lib.Json) (identifier : Option Text) where
  -- The first name that begins with the key and the identifier has this number as its value.
  abbrev pub HasNumber : Text → ℕ → Type 0
  HasNumber key n =
      (text : Text) × (get_modbus_action_matching_name_string_value lib actions key identifier
        ≡ some text)
      × (lib.strtoul text ≡ some n)

  -- The ranges that the assertions of the parser name.
  pub record AreConfigured (c : Numbers) : Type 0 where
    pub has_id : HasNumber action_id_key c.id
    pub has_address : HasNumber slave_address_key c.address
    pub has_function : HasNumber function_code_key c.function
    pub has_start : HasNumber register_address_key c.start
    pub has_count : HasNumber quantity_of_registers_key c.count
    pub has_interval : HasNumber action_interval_key c.interval_ms
    pub id_fits : (1 ≤ c.id) × (c.id < 2 ^ 31 - 1)
    pub address_fits : c.address < 2 ^ 8
    pub function_fits : (1 ≤ c.function) × (c.function ≤ 22)
    pub start_fits : (1 ≤ c.start) × (c.start < 2 ^ 16)
    pub count_fits : (1 ≤ c.count) × (c.count ≤ 256)
    pub interval_fits : (1 ≤ c.interval_ms) × (c.interval_ms ≤ 1000 * 60 * 30)

  parse_number-eq :
      (key : Text) (e : ParsingError) (min max n : ℕ) (h : History)
      → HasNumber key n
      → min ≤ n
      → n ≤ max
      → n < 2 ^ 32
      → parse_number lib actions identifier key e min max h ≡ done (value n) h
  unfolding parse_number
  parse_number-eq key e min max n h (text, found, number) above below small =
      let same : n % 2 ^ 32 ≡ n = omega arith in
      let inside : leb min n && leb n max ≡ true = ground arith in
      rw (parse_number, found, number, same, inside, ◌>>=◌) (ap (λ k. done (value k) h) same)

  -- An action whose six numbers are there and in range is read, with no failed assertion: each
  -- number goes unchanged into its field, but for the action's id, which keeps 16 bits, and for the
  -- interval, which becomes microseconds without overflow.
  pub parse_numbers_lem :
      (c : Numbers) (h : History)
      → AreConfigured c
      → parse_numbers lib actions identifier h
        ≡ done
            (value (record empty_action {
              action_id = c.id % 2 ^ 16;
              slave_address = c.address;
              function_code = c.function;
              start_register = c.start;
              register_count = c.count;
              interval_us = c.interval_ms * 1000;
            }))
            h
  unfolding parse_numbers parse_slave_address parse_function_code parse_register_address
      parse_quantity parse_interval
  parse_numbers_lem c h ok =
      let address : c.address % 2 ^ 8 ≡ c.address = omega (arith, ok.address_fits) in
      let count : c.count % 2 ^ 16 ≡ c.count = omega (arith, ok.count_fits) in
      let interval : c.interval_ms * 1000 % 2 ^ 32 ≡ c.interval_ms * 1000 =
        omega (arith, ok.interval_fits) in
      rw
        (
          ◌>>=◌,
          parse_number-eq action_id_key action_id_wrong_format 1 (2 ^ 31 - 2) c.id h ok.has_id
              ok.id_fits.0 (omega (arith, ok.id_fits)) (omega (arith, ok.id_fits)),
          parse_number-eq slave_address_key action_address_wrong_format 0 (2 ^ 32 - 1) c.address h
              ok.has_address (omega arith) (omega (arith, ok.address_fits))
              (omega (arith, ok.address_fits)),
          parse_number-eq function_code_key action_function_code_wrong_format 1 22 c.function h
              ok.has_function ok.function_fits.0 ok.function_fits.1
              (omega (arith, ok.function_fits)),
          parse_number-eq register_address_key action_register_address_wrong_format 1 0xffff c.start
              h ok.has_start ok.start_fits.0 (omega (arith, ok.start_fits))
              (omega (arith, ok.start_fits)),
          parse_number-eq quantity_of_registers_key action_register_quantity_wrong_format 1 256
              c.count h ok.has_count ok.count_fits.0 ok.count_fits.1 (omega (arith, ok.count_fits)),
          parse_number-eq action_interval_key action_intervall_wrong_format 1 (1000 * 60 * 30)
              c.interval_ms h ok.has_interval ok.interval_fits.0 ok.interval_fits.1
              (omega (arith, ok.interval_fits)),
          address,
          count,
          interval,
        )
        refl
