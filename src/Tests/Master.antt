-- ===== src/Tests/Master.antt =====
-- Runs and instances for src/ModbusMasterThread.c.
use revpi_modbus.Processor.Scope.{Extends}
use revpi_modbus.Master.Scope.{OfMaster}
use revpi_modbus.Tests.Parser.{read_two-ActionIsParsed}
use revpi_modbus.Slave.Threads.{waiting, cancelled}
use revpi_modbus.Master.Threads.{tcp_master_thread, rtu_master_thread, create_rtu_master}
use revpi_modbus.Master.Failure.{ReleasesTwice, create_rtu_master_fails}
use revpi_modbus.Master.Runs.{tcp_master_thread_lem, rtu_master_thread_lem}
use revpi_modbus.Prelude.{
  ◌∷◌, ◌+◌, ◌*◌, ◌≤◌, ◌<◌, ◌≡◌, ◌≢◌, ◌^◌, Bool, ltb, ℕ, refl, [], replicate, arith,
}
use revpi_modbus.Scheduler.{nanoseconds, IsNormal}
use revpi_modbus.External.Reasoning.{Returns}
use revpi_modbus.Processor.{accepts}
use revpi_modbus.Master.{
  MasterDevice, MasterState, Round, modbus_timeout, rtu_event_offset, master_rounds, tcp_event,
}
use revpi_modbus.Master.Times.{modbus_timeout_lem, rtu_event_offset_lem}
use revpi_modbus.Master.Events.{MasterIsValid}
use revpi_modbus.Master.Rounds.{RunsOn, tcp_rounds_lem}
use revpi_modbus.Tests.Samples.{read_two, read_eight_coils, at_time, queue}
use revpi_modbus.Tests.Scheduler.{all_memory, queue-QueueIsValid, queue-nonempty}
use revpi_modbus.Tests.Fractions.{fractions, fractions-IsIeee}
use revpi_modbus.Tests.Processor.{delivering, delivering-IsDocumented}

-- Half of 3.0000005 s.
half_of_three : modbus_timeout (at_time 3 500) ≡ (1, 500_000)
unfolding modbus_timeout
half_of_three = refl

modbus_timeout_lem_example :
    ((modbus_timeout (at_time 3 500)).1 < 1_000_000)
    × ((modbus_timeout (at_time 3 500)).0 * 1_000_000 + (modbus_timeout (at_time 3 500)).1
        ≡ 1_500_000)
    × (500 + 1_000_000_000 < 2 ^ 31)
modbus_timeout_lem_example = modbus_timeout_lem (at_time 3 500) (omega arith)

rtu_event_offset_lem_example :
    IsNormal (rtu_event_offset (at_time 0 100_000_000) 3)
    × (4 * (3 * nanoseconds (rtu_event_offset (at_time 0 100_000_000) 3)) ≤ 100_000_000)
rtu_event_offset_lem_example =
    rtu_event_offset_lem (at_time 0 100_000_000) 3 (omega arith) (omega arith)

abbrev device : MasterDevice
device = record { status_byte = 100; status_reset_byte = 173 }

abbrev state : MasterState
state = record {
  queue = queue;
  earliest_next_trigger_time = at_time 0 0;
  buffer = replicate 256 0;
  err_cnt = 0;
}

state-MasterIsValid : MasterIsValid (delivering 8) state
unfolding accepts
state-MasterIsValid = record {
  nonempty = queue-nonempty;
  valid = queue-QueueIsValid;
  can_process = ((omega arith, refl), ((omega arith, refl), tt));
  size = refl;
  few_errors = omega arith;
}

tcp_rounds_lem_example :
    Returns
      (λ (o : Round) h'. RunsOn (delivering 8) o)
      (master_rounds (delivering 8) 5 (tcp_event (delivering 8) device (at_time 0 1000)) state [])
tcp_rounds_lem_example =
    tcp_rounds_lem (delivering 8) (delivering-IsDocumented 8) (λ h. omega arith) device
      (at_time 0 1000) (omega arith) 5 state [] state-MasterIsValid

tcp_master_thread_lem_example :
    Returns
      (λ s h'. (s ≡ cancelled) × Extends (OfMaster device (read_two ∷ [])) [] h')
      (tcp_master_thread (delivering 2) all_memory fractions device (read_two ∷ []) 5 3 [])
unfolding accepts all_memory
tcp_master_thread_lem_example =
    tcp_master_thread_lem (delivering 2) (delivering-IsDocumented 2) (λ h. omega arith) device
      all_memory (read_two ∷ []) (λ h. cc) (read_two-ActionIsParsed, tt) (refl, tt) (refl, tt) 5
      fractions fractions-IsIeee 3 [] refl refl

rtu_master_thread_lem_example :
    Returns
      (λ s h'. (s ≢ waiting) × Extends (OfMaster device (read_two ∷ [])) [] h')
      (rtu_master_thread (delivering 2) all_memory device (read_two ∷ []) 1 5 2 [])
unfolding accepts all_memory
rtu_master_thread_lem_example =
    rtu_master_thread_lem (delivering 2) (delivering-IsDocumented 2) (λ h. omega arith) device
      all_memory (read_two ∷ []) (λ h. cc) (read_two-ActionIsParsed, tt) (refl, tt) (refl, tt) 5 1
      (omega arith) 0 2 [] (omega arith) refl

one_event : ℕ → Bool
one_event i = ltb i 1

create_rtu_master_fails_example :
    Returns
      (ReleasesTwice [])
      (create_rtu_master (delivering 2) one_event device (read_eight_coils ∷ read_two ∷ []) 2 5 [])
unfolding one_event
create_rtu_master_fails_example =
    create_rtu_master_fails (delivering 2) (λ h. omega arith) device one_event
      (read_eight_coils ∷ []) read_two [] (omega arith) (refl, tt) refl 2 5 [] refl refl refl
