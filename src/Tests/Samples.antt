-- ===== src/Tests/Samples.antt =====
-- Actions, queues and environments for the tests.
use revpi_modbus.Prelude.{ℕ, List, [], ◌∷◌}
use revpi_modbus.Prelude.Int.{ℤ}
use revpi_modbus.Config.{ModbusAction, read_holding_registers, read_coils}
use revpi_modbus.Scheduler.{Timespec, SchedulerEvent}
use revpi_modbus.External.{Reply}

-- Read two holding registers of slave 1 every 100 ms into byte 10 of the process image.
abbrev pub read_two : ModbusAction
read_two = record {
  action_id = 1;
  slave_address = 1;
  function_code = read_holding_registers;
  start_register = 1200;
  register_count = 2;
  interval_us = 100_000;
  start_byte_process_data = 10;
  start_bit_process_data = 0;
  status_byte_offset = 68;
  reset_status_byte_offset = 137;
  reset_status_bit_offset = 0;
}

-- Read eight coils every 1.5 s.
abbrev pub read_eight_coils : ModbusAction
read_eight_coils = record read_two {
  action_id = 2;
  function_code = read_coils;
  register_count = 8;
  interval_us = 1_500_000;
}

abbrev pub at_time : ℕ → ℕ → Timespec
at_time s n = record { tv_sec = s; tv_nsec = n }

abbrev pub fast_event : SchedulerEvent
fast_event = record {
  interval_time = at_time 0 100_000_000;
  trigger_time = at_time 8 0;
  action = read_two;
}

abbrev pub slow_event : SchedulerEvent
slow_event = record {
  interval_time = at_time 1 500_000_000;
  trigger_time = at_time 8 50_000_000;
  action = read_eight_coils;
}

abbrev pub queue : List SchedulerEvent
queue = fast_event ∷ slow_event ∷ []

abbrev pub reply_with : ℤ → List ℕ → Reply
reply_with ret out = record { ret = ret; out = out; time = at_time 7 0 }
