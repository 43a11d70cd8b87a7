-- ===== src/Tests/Program.antt =====
-- Runs and instances for the main programs.
use revpi_modbus.Program.Passes.{master_pass_lem, ClearedMasters}
use revpi_modbus.Config.{tcp, MasterConfiguration, DeviceConfiguration, SlaveConfiguration}
use revpi_modbus.Program.Slaves.{slave_pass_lem, ClearedSlaves}
use revpi_modbus.Prelude.{none, ℕ, ◌≡◌, ◌==◌, not, refl, [], ◌∷◌, if◌then◌else◌, arith, Bool}
use revpi_modbus.Prelude.Int.{ℤ, pos, is_zero}
use revpi_modbus.External.{Reply, Handle, thread, Call, Env, pthread_create}
use revpi_modbus.External.Reasoning.{Returns}
use revpi_modbus.Program.{over, master_pass, slave_pass}
use revpi_modbus.Tests.Samples.{reply_with, read_two}

-- The threads of some places cannot be started; every event is a reset.
abbrev value_without : (ℕ → Bool) → Call → ℤ
value_without fails c = elim c [
  | pthread_create i ↦ (if fails i then pos 11 else pos 0)
  | _ ↦ pos 1
]

abbrev without_threads : (ℕ → Bool) → Env
without_threads fails = record {
  answer = λ h c. reply_with (value_without fails c) [];
  modbus_max_read_bits = 2000;
  modbus_max_write_bits = 1968;
  modbus_max_read_registers = 125;
  modbus_max_write_registers = 123;
  modbus_enobase = 112_345_678;
}

abbrev is_reset : ℤ → Bool
is_reset e = not (is_zero e)

abbrev local_device : DeviceConfiguration
local_device = record {
  protocol = tcp (record { ip_address = []; port = 502; max_modbus_connections = 10 });
  device_status_byte_offset = 0;
  device_status_reset_byte_offset = 0;
}

abbrev one_master : MasterConfiguration
one_master = record { master_device = local_device; action_count = 1; action_list = read_two ∷ [] }

abbrev one_slave : SlaveConfiguration
one_slave = record {
  slave_device = local_device;
  data_config = record {
    discrete_inputs = 0;
    coils = 0;
    input_registers = 0;
    holding_registers = 0;
  };
  process_image_config = record {
    discrete_inputs_offset = 0;
    discrete_inputs_length = 0;
    coils_input_offset = 0;
    coils_length = 0;
    input_registers_offset = 0;
    input_registers_length = 0;
    holding_registers_input_offset = 0;
    holding_registers_length = 0;
  };
}

-- What a failed call leaves is the first thread.
abbrev left_first : Reply → Handle
left_first r = thread 0

-- The second of two threads is not started, and the first then stands in its place.
master_pass_lem_example :
    Returns
      (λ p h'.
        (p ≡ over) × ClearedMasters (without_threads (λ i. i == 1)) is_reset left_first 2 [] h')
      (master_pass
        (without_threads (λ i. i == 1))
        is_reset
        none
        left_first
        1
        (one_master ∷ one_master ∷ [])
        [])
master_pass_lem_example =
    master_pass_lem (without_threads (λ i. i == 1)) is_reset left_first none 1
      (one_master ∷ one_master ∷ []) [] (λ h n. refl) λ h. (0, omega arith, refl)

-- The first of two threads is not started.
slave_pass_lem_example :
    Returns
      (λ p h'. (p ≡ over) × ClearedSlaves (without_threads (λ i. i == 0)) is_reset 2 [] h')
      (slave_pass (without_threads (λ i. i == 0)) is_reset none 1 (one_slave ∷ one_slave ∷ []) [])
slave_pass_lem_example =
    slave_pass_lem (without_threads (λ i. i == 0)) is_reset none 1 (one_slave ∷ one_slave ∷ []) []
      (λ h n. refl) λ h. (0, omega arith, refl)
