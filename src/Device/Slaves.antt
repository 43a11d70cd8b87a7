-- ===== src/Device/Slaves.antt =====
-- The list of slaves that the parser makes: what it promises of each.
use revpi_modbus.Device.Results.{WhereOk-any}
use revpi_modbus.Device.{
  slave_rtu_product_type, slave_tcp_product_type, parse_entry, parse_devices,
  get_json_devices_array, parse_device_modbus_configuration, get_device_process_image_parameter,
  section_or_zero, configure_slave, parse_modbus_slaves_config_data,
  parse_modbus_slave_device_process_image_config, Platform,
}
use revpi_modbus.Parser.Allows.{Allows, Allows-bind, WhereRead}
use revpi_modbus.Prelude.{
  ==_iff, ◌==◌, refl, ◌*◌, ◌%◌, ◌^◌, ◌<◌, ◌≤◌, ◌≡◌, Option-cases, Bool-cases, inl, inr, List, [],
  All, Option, none, some, arith,
}
use revpi_modbus.Config.{
  ProcessImageConfiguration, SlaveDataSizeConfig, SlaveConfiguration, DeviceConfiguration,
}
use revpi_modbus.External.{◌>>=◌, History, pure}
use revpi_modbus.Parser.{
  out_key, inp_key, get_process_image_device_offset, Libraries, Text, ParsingError, Parsed, value,
  skip,
}
use revpi_modbus.Device.Bounds.{DeviceIsParsed, parse_device_modbus_configuration_lem}
use revpi_modbus.Device.Lists.{Allows-result, parse_devices-All, parse_entry-WhereRead}

-- What is stored of a slave's part of the process image: no coils and no discrete inputs, and no
-- more registers than lie in each of the two sections, whose lengths are whole registers.
pub record ImageIsParsed (image : SlaveDataSizeConfig × ProcessImageConfiguration) : Type 0 where
  pub no_coils : image.0.coils ≡ 0
  pub no_discrete_inputs : image.0.discrete_inputs ≡ 0
  pub inside_inputs : image.0.holding_registers * 2 ≤ image.1.holding_registers_length
  pub inside_outputs : image.0.input_registers * 2 ≤ image.1.input_registers_length
  pub whole : (image.1.holding_registers_length % 2 ≡ 0) × (image.1.input_registers_length % 2 ≡ 0)
  pub offsets :
      (image.1.holding_registers_input_offset < 2 ^ 32) × (image.1.input_registers_offset < 2 ^ 32)

pub record SlaveIsParsed (c : SlaveConfiguration) : Type 0 where
  pub interface : DeviceIsParsed c.slave_device
  pub image : ImageIsParsed (c.data_config, c.process_image_config)

abbrev pub WhereSome : {A : Type 0} → (A → Type 0) → Option A → Type 0
WhereSome P none = Unit
WhereSome P (some a) = P a

module _ (lib : Libraries) (platform : Platform lib) where
  open lib use {Json, object_get}

  parse_modbus_slave_device_process_image_config-ImageIsParsed :
      (device : Json) (h : History)
      → Allows
          (WhereSome ImageIsParsed)
          (parse_modbus_slave_device_process_image_config lib platform device h)
  unfolding parse_modbus_slave_device_process_image_config
  parse_modbus_slave_device_process_image_config-ImageIsParsed device h =
      elim (Option-cases (get_process_image_device_offset lib device)) [
        | inl e ↦ rw (parse_modbus_slave_device_process_image_config, e, Allows) tt
        | inr (offset, e) ↦ elim (Option-cases (object_get device inp_key)) [
          | inl i ↦ rw (parse_modbus_slave_device_process_image_config, e, i, Allows) tt
          | inr (inp, i) ↦
              let inputs = section_or_zero (get_device_process_image_parameter lib platform inp) in
              elim (Bool-cases (inputs.length % 2 == 0)) [
                | inr odd ↦
                    rw (parse_modbus_slave_device_process_image_config, e, i, odd, ◌>>=◌, Allows) tt
                | inl even ↦ elim (Option-cases (object_get device out_key)) [
                  | inl o ↦
                      rw
                        (
                          parse_modbus_slave_device_process_image_config, e, i, even, o, ◌>>=◌,
                          Allows,
                        )
                        tt
                  | inr (out, o) ↦
                      let outputs =
                        section_or_zero (get_device_process_image_parameter lib platform out) in
                      elim (Bool-cases (outputs.length % 2 == 0)) [
                        | inr odd ↦
                            rw
                              (
                                parse_modbus_slave_device_process_image_config, e, i, even, o, odd,
                                ◌>>=◌, Allows,
                              )
                              tt
                        | inl even' ↦
                            rw
                              (
                                parse_modbus_slave_device_process_image_config, e, i, even, o,
                                even', ◌>>=◌, Allows, WhereSome,
                              )
                              (record {
                                no_coils = refl;
                                no_discrete_inputs = refl;
                                inside_inputs = omega arith;
                                inside_outputs = omega arith;
                                whole = ((==_iff _ _).0 even, (==_iff _ _).0 even');
                                offsets = (omega arith, omega arith);
                              })
                      ]
                ]
              ]
        ]
      ]

  abbrev kept :
      DeviceConfiguration
      → Option (SlaveDataSizeConfig × ProcessImageConfiguration)
      → Parsed SlaveConfiguration
  kept d r = elim r [
    | none ↦ skip
    | some image ↦
        value (record { slave_device = d; data_config = image.0; process_image_config = image.1 })
  ]

  kept-SlaveIsParsed :
      (d : DeviceConfiguration) (r : Option (SlaveDataSizeConfig × ProcessImageConfiguration))
      → DeviceIsParsed d
      → WhereSome ImageIsParsed r
      → WhereRead SlaveIsParsed (kept d r)
  kept-SlaveIsParsed d none valid image = tt
  kept-SlaveIsParsed d (some i) valid image = record { interface = valid; image = image }

  configure_slave-SlaveIsParsed :
      (device : Json) (h : History)
      → Allows (WhereRead SlaveIsParsed) (configure_slave lib platform device h)
  unfolding configure_slave
  configure_slave-SlaveIsParsed device h =
      Allows-result DeviceIsParsed (WhereRead SlaveIsParsed)
        (parse_device_modbus_configuration lib platform device)
        (λ d. parse_modbus_slave_device_process_image_config lib platform device >>= λ r.
          pure (kept d r))
        (λ e. pure skip) h (parse_device_modbus_configuration_lem lib platform device)
        (λ d valid.
          Allows-bind (WhereSome ImageIsParsed) (WhereRead SlaveIsParsed)
            (parse_modbus_slave_device_process_image_config lib platform device)
            (λ r. pure (kept d r)) h
            (parse_modbus_slave_device_process_image_config-ImageIsParsed device h)
            λ r h' image. kept-SlaveIsParsed d r valid image)
        λ e. tt

  -- Whatever the configuration file holds, every slave in the list that
  -- `parse_modbus_slaves_config_data` leaves, whether it ends with an error or not, has an interface
  -- that its thread can rely on, no coils or discrete inputs, and no more registers than lie in its
  -- two sections of the process image.
  pub parse_modbus_slaves_config_data_lem :
      (text : Text) (h : History)
      → Allows
          (λ (r : Option ParsingError × List SlaveConfiguration). All SlaveIsParsed r.1)
          (parse_modbus_slaves_config_data lib platform text h)
  unfolding parse_modbus_slaves_config_data
  parse_modbus_slaves_config_data_lem text h =
      Allows-result (λ _. Unit) (λ r. All SlaveIsParsed r.1)
        (get_json_devices_array lib platform text)
        (λ devices.
          parse_devices
            (parse_entry lib platform slave_tcp_product_type slave_rtu_product_type
              (configure_slave lib platform))
            devices 0 [])
        (λ e. pure (some e, [])) h (WhereOk-any _)
        (λ devices _.
          parse_devices-All SlaveIsParsed _
            (parse_entry-WhereRead lib platform SlaveIsParsed slave_tcp_product_type
              slave_rtu_product_type (configure_slave lib platform) configure_slave-SlaveIsParsed)
            devices 0 [] h tt)
        λ e. tt
