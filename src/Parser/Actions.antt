-- ===== src/Parser/Actions.antt =====
-- The actions that the parser yields: their bounds, and what the master makes of them.
use revpi_modbus.Parser.Allows.{Allows-then, WhereRead, Allows}
use revpi_modbus.Prelude.{
  ◌-◌, ◌&&◌, Option-cases, ℕ, ◌*◌, ◌%◌, ◌^◌, ◌≤◌, ◌<◌, ◌≡◌, refl, true, Option, Bool-cases, inl,
  inr, leb, arith,
}
use revpi_modbus.Config.{max_register_size_per_action, ModbusAction, is_bit_function}
use revpi_modbus.External.{pure, Env, Outcome, done, aborted, overrun, History, ◌>>=◌}
use revpi_modbus.Parser.{
  action_register_address_wrong_format, action_address_wrong_format, slave_address_key,
  register_address_key, action_register_quantity_wrong_format, action_function_code_wrong_format,
  empty_action, action_intervall_wrong_format, action_status_reset_key, action_id_wrong_format,
  quantity_of_registers_key, function_code_key, action_status_key, action_interval_key,
  parse_register_address, parse_function_code, variable_name_key, parse_slave_address,
  parse_quantity, parse_interval, get_modbus_action_matching_name_string_value, Libraries, Text,
  ParsingError, Parsed, value, skip, fail, ◌>=>◌, Position, parse_number, parse_numbers,
  parse_variable, parse_variables, place_data, action_id_key,
}

-- What the parser promises about an action: its numbers are in the ranges that the assertions name,
-- its interval is a whole number of milliseconds, and the bit position of a coil action is that of a
-- bit in its byte.
pub record ActionIsParsed (a : ModbusAction) : Type 0 where
  pub function : (1 ≤ a.function_code) × (a.function_code ≤ 22)
  pub start : (1 ≤ a.start_register) × (a.start_register < 2 ^ 16)
  pub count : (1 ≤ a.register_count) × (a.register_count ≤ 256)
  pub interval : (1000 ≤ a.interval_us) × (a.interval_us ≤ 1_800_000_000)
  pub whole : a.interval_us % 1000 ≡ 0
  pub slave : a.slave_address < 2 ^ 8
  pub bit : is_bit_function a.function_code ≡ true → a.start_bit_process_data < 8

place_data-ActionIsParsed :
    (a : ModbusAction) (p : Position) (status reset bit : ℕ)
    → ActionIsParsed a
    → ActionIsParsed (record (place_data a p) {
      status_byte_offset = status;
      reset_status_byte_offset = reset;
      reset_status_bit_offset = bit;
    })
unfolding place_data
place_data-ActionIsParsed a p status reset bit ok =
    elim (Bool-cases (is_bit_function a.function_code)) [
      | inl bits ↦ rw bits (record {
        function = ok.function;
        start = ok.start;
        count = ok.count;
        interval = ok.interval;
        whole = ok.whole;
        slave = ok.slave;
        bit = λ e. omega arith;
      })
      | inr words ↦ rw words (record {
        function = ok.function;
        start = ok.start;
        count = ok.count;
        interval = ok.interval;
        whole = ok.whole;
        slave = ok.slave;
        bit = λ e. absurd (ground arith);
      })
    ]

module _ (env : Env) (lib : Libraries) where
  open lib use {Json, object_get, entries, strtoul, find_identifier, allocates}

  parse_number-bounds :
      (actions : Json) (identifier : Option Text) (key : Text) (e : ParsingError) (min max : ℕ)
      (h : History)
      → Allows
          (WhereRead λ n. (min ≤ n) × (n ≤ max))
          (parse_number lib actions identifier key e min max h)
  unfolding parse_number
  parse_number-bounds actions identifier key e min max h =
      elim (Option-cases
        (get_modbus_action_matching_name_string_value lib actions key identifier)) [
          | inl nothing ↦ rw (parse_number, nothing, Allows) tt
          | inr (text, found) ↦ elim (Option-cases (strtoul text)) [
            | inl bad ↦ rw (parse_number, found, bad, Allows) tt
            | inr (n, number) ↦ elim (Bool-cases (leb min (n % 2 ^ 32) && leb (n % 2 ^ 32) max)) [
              | inl inside ↦ rw (parse_number, found, number, inside, ◌>>=◌, Allows) (ground arith)
              | inr outside ↦ rw (parse_number, found, number, outside, ◌>>=◌, Allows) tt
            ]
          ]
        ]

  parse_interval-ActionIsParsed :
      (actions : Json) (identifier : Option Text) (a : ModbusAction) (h : History)
      → (1 ≤ a.function_code) × (a.function_code ≤ 22)
      → (1 ≤ a.start_register) × (a.start_register < 2 ^ 16)
      → (1 ≤ a.register_count) × (a.register_count ≤ 256)
      → a.slave_address < 2 ^ 8
      → a.start_bit_process_data ≡ 0
      → Allows (WhereRead ActionIsParsed) (parse_interval lib actions identifier a h)
  unfolding parse_interval
  parse_interval-ActionIsParsed actions identifier a h function start count slave bit =
      Allows-then (λ n. (1 ≤ n) × (n ≤ 1000 * 60 * 30)) ActionIsParsed
        (parse_number lib actions identifier action_interval_key action_intervall_wrong_format 1
          (1000 * 60 * 30))
        (λ n. pure (value (record a { interval_us = n * 1000 % 2 ^ 32 }))) h
        (parse_number-bounds actions identifier action_interval_key action_intervall_wrong_format 1
          (1000 * 60 * 30) h)
        λ n h' ok. record {
          function = function;
          start = start;
          count = count;
          interval = (omega (arith, ok.0, ok.1), omega (arith, ok.0, ok.1));
          whole = omega (arith, ok.1);
          slave = slave;
          bit = λ e. omega arith;
        }

  parse_quantity-ActionIsParsed :
      (actions : Json) (identifier : Option Text) (a : ModbusAction) (h : History)
      → (1 ≤ a.function_code) × (a.function_code ≤ 22)
      → (1 ≤ a.start_register) × (a.start_register < 2 ^ 16)
      → a.slave_address < 2 ^ 8
      → a.start_bit_process_data ≡ 0
      → Allows (WhereRead ActionIsParsed) (parse_quantity lib actions identifier a h)
  unfolding parse_quantity
  parse_quantity-ActionIsParsed actions identifier a h function start slave bit =
      Allows-then (λ n. (1 ≤ n) × (n ≤ max_register_size_per_action)) ActionIsParsed
        (parse_number lib actions identifier quantity_of_registers_key
          action_register_quantity_wrong_format 1 max_register_size_per_action)
        (λ n. parse_interval lib actions identifier (record a { register_count = n % 2 ^ 16 })) h
        (parse_number-bounds actions identifier quantity_of_registers_key
          action_register_quantity_wrong_format 1 max_register_size_per_action h)
        λ n h' ok.
          parse_interval-ActionIsParsed actions identifier
            (record a { register_count = n % 2 ^ 16 }) h' function start
            (omega (arith, ok.0, ok.1), omega (arith, ok.1)) slave bit

  parse_function_code-ActionIsParsed :
      (actions : Json) (identifier : Option Text) (a : ModbusAction) (h : History)
      → a.slave_address < 2 ^ 8
      → a.start_bit_process_data ≡ 0
      → Allows (WhereRead ActionIsParsed) (parse_function_code lib actions identifier a h)
  unfolding parse_function_code parse_register_address
  parse_function_code-ActionIsParsed actions identifier a h slave bit =
      Allows-then (λ n. (1 ≤ n) × (n ≤ 22)) ActionIsParsed
        (parse_number lib actions identifier function_code_key action_function_code_wrong_format 1
          22)
        (λ n. parse_register_address lib actions identifier (record a { function_code = n })) h
        (parse_number-bounds actions identifier function_code_key action_function_code_wrong_format
          1 22 h)
        λ fc h₁ fc_ok.
          Allows-then (λ n. (1 ≤ n) × (n ≤ 0xffff)) ActionIsParsed
            (parse_number lib actions identifier register_address_key
              action_register_address_wrong_format 1 0xffff)
            (λ n.
              parse_quantity lib actions identifier
                (record a { function_code = fc; start_register = n }))
            h₁
            (parse_number-bounds actions identifier register_address_key
              action_register_address_wrong_format 1 0xffff h₁)
            λ n h₂ ok.
              parse_quantity-ActionIsParsed actions identifier
                (record a { function_code = fc; start_register = n }) h₂ fc_ok
                (ok.0, omega (arith, ok.1)) slave bit

  pub parse_numbers-ActionIsParsed :
      (actions : Json) (identifier : Option Text) (h : History)
      → Allows (WhereRead ActionIsParsed) (parse_numbers lib actions identifier h)
  unfolding parse_numbers parse_slave_address
  parse_numbers-ActionIsParsed actions identifier h =
      Allows-then (λ n. (1 ≤ n) × (n ≤ 2 ^ 31 - 2)) ActionIsParsed
        (parse_number lib actions identifier action_id_key action_id_wrong_format 1 (2 ^ 31 - 2))
        (λ n.
          parse_slave_address lib actions identifier
            (record empty_action { action_id = n % 2 ^ 16 }))
        h
        (parse_number-bounds actions identifier action_id_key action_id_wrong_format 1 (2 ^ 31 - 2)
          h)
        λ id h₁ id_ok.
          let a = record empty_action { action_id = id % 2 ^ 16 } in
          Allows-then (λ n. (0 ≤ n) × (n ≤ 2 ^ 32 - 1)) ActionIsParsed
            (parse_number lib actions identifier slave_address_key action_address_wrong_format 0
              (2 ^ 32 - 1))
            (λ n.
              parse_function_code lib actions identifier (record a { slave_address = n % 2 ^ 8 }))
            h₁
            (parse_number-bounds actions identifier slave_address_key action_address_wrong_format 0
              (2 ^ 32 - 1) h₁)
            λ n h₂ ok.
              parse_function_code-ActionIsParsed actions identifier
                (record a { slave_address = n % 2 ^ 8 }) h₂ (omega arith) refl

  parse_variable-any :
      (device actions : Json) (identifier : Option Text) (key : Text) (p : Position) (h : History)
      → Allows (WhereRead λ q. Unit) (parse_variable lib device actions identifier key p h)
  parse_variable-any device actions identifier key p h =
      any (parse_variable lib device actions identifier key p h)
    where
      any : (o : Outcome (Parsed Position)) → Allows (WhereRead λ q. Unit) o
      any (done (value q) h') = tt
      any (done skip h') = tt
      any (done (fail e) h') = tt
      any (aborted h') = tt
      any (overrun h') = tt

  pub parse_variables-ActionIsParsed :
      (device actions : Json) (identifier : Option Text) (a : ModbusAction) (h : History)
      → ActionIsParsed a
      → Allows (WhereRead ActionIsParsed) (parse_variables lib device actions identifier a h)
  unfolding parse_variables
  parse_variables-ActionIsParsed device actions identifier a h ok =
      let find = parse_variable lib device actions identifier in
      let zero_position : Position = record { byte = 0; bit = 0 } in
      let last = λ (place status reset : Position). record (place_data a place) {
        status_byte_offset = status.byte;
        reset_status_byte_offset = reset.byte;
        reset_status_bit_offset = reset.bit % 2 ^ 8;
      } in
      Allows-then (λ p. Unit) ActionIsParsed (find variable_name_key zero_position)
        (λ place. find action_status_key place >=> λ status.
          find action_status_reset_key status >=> λ reset. pure (value (last place status reset)))
        h (parse_variable-any device actions identifier variable_name_key zero_position h)
        λ place h₁ u.
          Allows-then (λ p. Unit) ActionIsParsed (find action_status_key place)
            (λ status. find action_status_reset_key status >=> λ reset.
              pure (value (last place status reset)))
            h₁ (parse_variable-any device actions identifier action_status_key place h₁)
            λ status h₂ u'.
              Allows-then (λ p. Unit) ActionIsParsed (find action_status_reset_key status)
                (λ reset. pure (value (last place status reset))) h₂
                (parse_variable-any device actions identifier action_status_reset_key status h₂)
                λ reset h₃ u''.
                  place_data-ActionIsParsed a place status.byte reset.byte (reset.bit % 2 ^ 8) ok
