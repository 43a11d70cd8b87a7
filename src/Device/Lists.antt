-- ===== src/Device/Lists.antt =====
-- The lists of masters and of slaves that the parser makes.
use revpi_modbus.Device.Results.{WhereOk-any, WhereOk, error, ok, Result}
use revpi_modbus.Device.{
  store_status, store_status_reset, parse_device_modbus_configuration, get_json_devices_array,
  master_rtu_product_type, master_tcp_product_type, parse_modbus_master_config_data,
  configure_master, master_status_reset_key, get_device_product_type, device_misc_key,
  master_status_key, has_type, complete_master, parse_entry, find_status_offsets, Platform,
  parse_devices,
}
use revpi_modbus.Parser.Allows.{
  Allows-any, Allows-branch, Allows, Allows-bind, WhereRead, Allows-parsed,
}
use revpi_modbus.Parser.Actions.{ActionIsParsed}
use revpi_modbus.Parser.Lists.{parse_modbus_master_action_list_lem}
use revpi_modbus.Prelude.{
  ℕ, suc, ◌≡◌, ◌||◌, true, false, Bool, Option-cases, Bool-cases, inl, inr, List, [], ◌∷◌, All,
  Option, none, some, length,
}
use revpi_modbus.Config.{MasterConfiguration, ModbusAction, DeviceConfiguration}
use revpi_modbus.External.{◌>>=◌, Env, History, M, branch, pure}
use revpi_modbus.Parser.{
  parse_modbus_master_action_list, get_variable_parameters, starts_with, extend_key, Libraries,
  Text, ParsingError, Parsed, skip, fail, Position,
}
use revpi_modbus.Device.Bounds.{DeviceIsParsed, parse_device_modbus_configuration_lem}

pub parse_devices-All :
    {Json A : Type 0} (P : A → Type 0) (parse : ℕ → Json → M (Parsed A))
    → ((i : ℕ) (device : Json) (h : History) → Allows (WhereRead P) (parse i device h))
    → (devices : List Json) (i : ℕ) (list : List A) (h : History) → All P list
    → Allows (λ r. All P r.1) (parse_devices parse devices i list h)
unfolding parse_devices
parse_devices-All P parse each [] i list h oks = oks
parse_devices-All P parse each (device ∷ rest) i list h oks =
    Allows-bind (WhereRead P) (λ r. All P r.1) (parse i device) _ h (each i device h)
      (Allows-parsed P (λ r. All P r.1) (λ a. parse_devices parse rest (suc i) (a ∷ list))
        (parse_devices parse rest (suc i) list) (λ e. pure (some e, list))
        (λ a h' p. parse_devices-All P parse each rest (suc i) (a ∷ list) h' (p, oks))
        (λ h'. parse_devices-All P parse each rest (suc i) list h' oks) λ e h'. oks)

stored :
    (d : DeviceConfiguration) (r : Bool × Position)
    → DeviceIsParsed d
    → DeviceIsParsed (store_status r d)
stored d (true, p) valid = valid
stored d (false, p) valid = valid

stored_reset :
    (d : DeviceConfiguration) (r : Bool × Position)
    → DeviceIsParsed d
    → DeviceIsParsed (store_status_reset r d)
stored_reset d (true, p) valid = valid
stored_reset d (false, p) valid = valid

-- The two ways on from a result.
pub Allows-result :
    {A B : Type 0} (P : A → Type 0) (Q : B → Type 0) (r : Result A) (f : A → M B)
    (g : ParsingError → M B) (h : History)
    → WhereOk P r
    → ((a : A) → P a → Allows Q (f a h))
    → ((e : ParsingError) → Allows Q (g e h))
    → Allows Q ((elim r as (λ r'. M B) [ ok a ↦ f a | error e ↦ g e ]) h)
Allows-result P Q (ok a) f g h p on_ok on_error = on_ok a p
Allows-result P Q (error e) f g h p on_ok on_error = on_error e

-- What the parser promises of a master: its interface, its actions, and their count.
pub record MasterIsParsed (c : MasterConfiguration) : Type 0 where
  pub interface : DeviceIsParsed c.master_device
  pub actions : All ActionIsParsed c.action_list
  pub counted : c.action_count ≡ length c.action_list

module _ (lib : Libraries) (platform : Platform lib) where
  open lib use {Json, object_get, entries}
  open platform use {allocates_entry}

  pub parse_entry-WhereRead :
      {A : Type 0} (P : A → Type 0) (tcp_type rtu_type : Text) (configure : Json → M (Parsed A))
      → ((device : Json) (h : History) → Allows (WhereRead P) (configure device h))
      → (i : ℕ) (device : Json) (h : History)
      → Allows (WhereRead P) (parse_entry lib platform tcp_type rtu_type configure i device h)
  unfolding parse_entry
  parse_entry-WhereRead {A} P tcp_type rtu_type configure each i device h =
      Allows-result (λ _. Unit) (WhereRead P) (get_device_product_type lib platform device)
        (λ type.
          branch (has_type type tcp_type || has_type type rtu_type)
            (branch (allocates_entry i) (configure device) (pure skip)) (pure skip))
        (λ e. pure (fail e)) h (WhereOk-any _)
        (λ type _.
          Allows-branch (WhereRead P) (has_type type tcp_type || has_type type rtu_type)
            (branch (allocates_entry i) (configure device) (pure skip)) (pure skip) h
            (Allows-branch (WhereRead P) (allocates_entry i) (configure device) (pure skip) h
              (each device h) tt)
            tt)
        λ e. tt

  -- A look-up whose result is stored without a change of the interface.
  looked_up :
      (m : M (Bool × Position)) (store : Bool × Position → DeviceConfiguration)
      (next : Position → DeviceConfiguration → M DeviceConfiguration) (h : History)
      → ((r : Bool × Position) → DeviceIsParsed (store r))
      → ((p : Position) (d : DeviceConfiguration) (h' : History)
          → DeviceIsParsed d
          → Allows DeviceIsParsed (next p d h'))
      → Allows DeviceIsParsed ((m >>= λ r. next r.1 (store r)) h)
  looked_up m store next h valid go =
      Allows-bind (λ _. Unit) DeviceIsParsed m (λ r. next r.1 (store r)) h (Allows-any (m h))
        λ r h' _. go r.1 (store r) h' (valid r)

  find_status_offsets-DeviceIsParsed :
      (device : Json) (rest : List (Text × Json)) (p : Position) (d : DeviceConfiguration)
      (h : History)
      → DeviceIsParsed d
      → Allows DeviceIsParsed (find_status_offsets lib platform device rest p d h)
  unfolding find_status_offsets
  find_status_offsets-DeviceIsParsed device [] p d h valid = valid
  find_status_offsets-DeviceIsParsed device ((name, val) ∷ rest) p d h valid =
      let look_up : M (Bool × Position) =
        get_variable_parameters lib device (lib.get_string val) p in
      let next = find_status_offsets lib platform device rest in
      let valid' = find_status_offsets-DeviceIsParsed device rest in
      elim (Bool-cases (starts_with master_status_key name)) [
        | inl status ↦
            rw (find_status_offsets, status, branch)
              (looked_up look_up (λ r. store_status r d) next h (λ r. stored d r valid) valid')
        | inr other ↦ elim (Bool-cases (starts_with master_status_reset_key name)) [
          | inl reset ↦
              rw (find_status_offsets, other, reset, branch)
                (looked_up look_up (λ r. store_status_reset r d) next h
                  (λ r. stored_reset d r valid) valid')
          | inr neither ↦ rw (find_status_offsets, other, neither, branch) (valid' p d h valid)
        ]
      ]

  complete_master-MasterIsParsed :
      (device : Json) (d : DeviceConfiguration) (actions : List ModbusAction) (count : ℕ)
      (h : History)
      → DeviceIsParsed d
      → All ActionIsParsed actions
      → count ≡ length actions
      → Allows (WhereRead MasterIsParsed) (complete_master lib platform device d actions count h)
  unfolding complete_master
  complete_master-MasterIsParsed device d actions count h interface parsed n =
      elim (Option-cases (object_get device extend_key)) [
        | inl missing ↦ rw (complete_master, missing, Allows) tt
        | inr (extension, there) ↦ elim (Option-cases (object_get extension device_misc_key)) [
          | inl missing ↦ rw (complete_master, there, missing, Allows) tt
          | inr (misc, there') ↦
              rw (complete_master, there, there')
                (Allows-bind DeviceIsParsed (WhereRead MasterIsParsed)
                  (find_status_offsets lib platform device (entries misc)
                    (record { byte = 0; bit = 0 }) d)
                  _ h
                  (find_status_offsets-DeviceIsParsed device (entries misc)
                    (record { byte = 0; bit = 0 }) d h interface)
                  λ d' h' ok'. record { interface = ok'; actions = parsed; counted = n })
        ]
      ]

module _ (env : Env) (lib : Libraries) (platform : Platform lib) where
  open lib use {Json}

  actions_read :
      (device : Json) (d : DeviceConfiguration) (r : Option ParsingError × List ModbusAction × ℕ)
      (h : History)
      → DeviceIsParsed d
      → All ActionIsParsed r.1
      → r.2 ≡ length r.1
      → Allows (WhereRead MasterIsParsed) (
          (elim r.0 as (λ o. M (Parsed MasterConfiguration)) [
            | some e ↦ pure skip
            | none ↦ complete_master lib platform device d r.1 r.2
          ])
            h)
  actions_read device d (some e, actions, count) h interface parsed n = tt
  actions_read device d (none, actions, count) h interface parsed n =
      complete_master-MasterIsParsed lib platform device d actions count h interface parsed n

  configure_master-MasterIsParsed :
      (device : Json) (h : History)
      → Allows (WhereRead MasterIsParsed) (configure_master lib platform env device h)
  unfolding configure_master
  configure_master-MasterIsParsed device h =
      Allows-result DeviceIsParsed (WhereRead MasterIsParsed)
        (parse_device_modbus_configuration lib platform device)
        (λ d. parse_modbus_master_action_list env lib device >>= λ r. elim r.0 [
          | some e ↦ pure skip
          | none ↦ complete_master lib platform device d r.1 r.2
        ])
        (λ e. pure skip) h (parse_device_modbus_configuration_lem lib platform device)
        (λ d valid.
          Allows-bind (λ r. All ActionIsParsed r.1 × (r.2 ≡ length r.1)) (WhereRead MasterIsParsed)
            (parse_modbus_master_action_list env lib device) _ h
            (parse_modbus_master_action_list_lem env lib device h)
            λ r h' parsed. actions_read device d r h' valid parsed.0 parsed.1)
        λ e. tt

  -- Whatever the configuration file holds, every master in the list that
  -- `parse_modbus_master_config_data` leaves, whether it ends with an error or not, has an interface
  -- and actions that its thread can rely on, and their count.
  pub parse_modbus_master_config_data_lem :
      (text : Text) (h : History)
      → Allows
          (λ (r : Option ParsingError × List MasterConfiguration). All MasterIsParsed r.1)
          (parse_modbus_master_config_data lib platform env text h)
  unfolding parse_modbus_master_config_data
  parse_modbus_master_config_data_lem text h =
      Allows-result (λ _. Unit) (λ r. All MasterIsParsed r.1)
        (get_json_devices_array lib platform text)
        (λ devices.
          parse_devices
            (parse_entry lib platform master_tcp_product_type master_rtu_product_type
              (configure_master lib platform env))
            devices 0 [])
        (λ e. pure (some e, [])) h (WhereOk-any _)
        (λ devices _.
          parse_devices-All MasterIsParsed _
            (parse_entry-WhereRead lib platform MasterIsParsed master_tcp_product_type
              master_rtu_product_type (configure_master lib platform env)
              configure_master-MasterIsParsed)
            devices 0 [] h tt)
        λ e. tt
