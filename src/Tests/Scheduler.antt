-- ===== src/Tests/Scheduler.antt =====
-- Runs and instances for src/Scheduler.c.
use revpi_modbus.Scheduler.Offset.{
  get_minimal_modbus_event_offset, inverse_mean_from, interval_ns, quarter,
}
use revpi_modbus.Scheduler.Quarter.{get_minimal_modbus_event_offset_lem}
use revpi_modbus.Tests.Fractions.{fractions, fractions-IsIeee}
use revpi_modbus.Scheduler.Timetable.{dispatch-Refines, Refines}
use revpi_modbus.Prelude.Int.{pos, is_neg, neg_part, pos_part, ℤ}
use revpi_modbus.Scheduler.Intervals.{get_minimal_modbus_action_interval_lem}
use revpi_modbus.Scheduler.Rounds.{dispatch_within, backlog, dispatch_lem, Dispatched, Processed}
use revpi_modbus.Scheduler.Clock.{timespec_diff-add, timespec_diff_lem}
use revpi_modbus.Scheduler.Start.{init_scheduler_ready, Started, init_scheduler_failed}
use revpi_modbus.Prelude.{
  ◌↔◌, inl, ◌*◌, inr, none, map, Perm, ◌<◌, ◌<◌, ◌≤◌, ◌≤◌, ◌∷◌, ◌∷◌, ◌+◌, ◌+◌, All, Holds, [], true,
  ltb, ◌≢◌, Bool, Option, ◌≢◌, ℕ, ◌≡◌, refl, List, arith, some,
}
use revpi_modbus.Scheduler.{
  nanoseconds_per_second, timespec_diff, failed, ready, determine_next_event, nanoseconds,
  is_before, insert_event_by_due_date, IsNormal, get_minimal_modbus_action_interval, init_scheduler,
  dispatch, SchedulerEvent, Timespec, ModbusEvent, timespec_add, add_carry,
}
use revpi_modbus.Scheduler.Order.{insert_event_by_due_date_lem, Placed, EventIsValid, QueueIsValid}
use revpi_modbus.Tests.Samples.{slow_event, read_two, read_eight_coils, fast_event, at_time, queue}

abbrev events_of : Option (List ModbusEvent × List SchedulerEvent) → List ModbusEvent
events_of none = []
events_of (some (evs, q)) = evs

carries : timespec_add (at_time 1 999_999_999) (at_time 2 2) ≡ some (at_time 4 1)
unfolding timespec_add add_carry
carries = refl

pub queue-QueueIsValid : QueueIsValid queue
queue-QueueIsValid = omega arith

pub queue-nonempty : queue ≢ []
queue-nonempty h = cc

-- The fast action runs at 8.0 s, then the slow one at 8.05 s, then the fast one twice.
rounds :
    map (λ (ev : ModbusEvent). ev.trigger_time) (events_of (dispatch 4 queue))
    ≡ at_time 8 0 ∷ at_time 8 50_000_000 ∷ at_time 8 100_000_000 ∷ at_time 8 200_000_000 ∷ []
unfolding dispatch timespec_add add_carry insert_event_by_due_date is_before determine_next_event
rounds = refl

timespec_diff_lem_example :
    (d : ℤ) × (n : ℕ) × (timespec_diff (at_time 3 5) (at_time 4 1) ≡ some (d, n))
    × (n < nanoseconds_per_second)
    × (pos_part d * nanoseconds_per_second + n + nanoseconds (at_time 4 1)
        ≡ neg_part d * nanoseconds_per_second + nanoseconds (at_time 3 5))
    × ((is_neg d ≡ true) ↔ (nanoseconds (at_time 3 5) < nanoseconds (at_time 4 1)))
timespec_diff_lem_example =
    timespec_diff_lem (at_time 3 5) (at_time 4 1) (omega arith) (omega arith) (omega arith)
      (omega arith)

fast_event-EventIsValid : EventIsValid fast_event
fast_event-EventIsValid = omega arith

-- An event due when another is goes behind it.
insert_event_by_due_date_lem_example : Placed fast_event fast_event-EventIsValid queue
insert_event_by_due_date_lem_example =
    insert_event_by_due_date_lem fast_event fast_event-EventIsValid queue queue-QueueIsValid

unfoldable pub all_memory : ℕ → Bool
all_memory i = true

one_event : ℕ → Bool
one_event i = ltb i 1

init_scheduler_ready_example :
    (q : List SchedulerEvent) × (init_scheduler all_memory
        (at_time 7 0)
        (read_eight_coils ∷ read_two ∷ [])
      ≡ ready q)
    × Started (at_time 7 0) (read_eight_coils ∷ read_two ∷ []) q
unfolding all_memory
init_scheduler_ready_example =
    init_scheduler_ready all_memory (at_time 7 0) (omega arith) (read_eight_coils ∷ read_two ∷ [])
      (λ h. cc) (omega arith) (refl, (refl, tt))

init_scheduler_failed_example :
    (freed : List SchedulerEvent) × (init_scheduler one_event
        (at_time 7 0)
        (read_eight_coils ∷ read_two ∷ [])
      ≡ failed freed)
    × Perm (map (λ (e : SchedulerEvent). e.action) freed) (read_eight_coils ∷ [])
unfolding one_event
init_scheduler_failed_example =
    init_scheduler_failed one_event (at_time 7 0) (omega arith) (read_eight_coils ∷ []) read_two []
      (omega arith) (refl, tt) refl

dispatch_lem_example : Dispatched 0 4 queue
dispatch_lem_example = dispatch_lem 4 0 queue queue-nonempty queue-QueueIsValid (omega arith)

dispatch-Refines_example : Refines 4 queue
dispatch-Refines_example = dispatch-Refines 4 queue queue-nonempty queue-QueueIsValid

timespec_diff-add_example :
    (t : Timespec) × (timespec_add (at_time 1 999_999_999) (at_time 2 2) ≡ some t)
    × (timespec_diff t (at_time 2 2) ≡ some (pos 1, 999_999_999))
timespec_diff-add_example =
    timespec_diff-add (at_time 1 999_999_999) (at_time 2 2) (omega arith) (omega arith)
      (omega arith)

-- The slow event comes out within the calls that the bound allows.
dispatch_within_example : Processed slow_event (dispatch (backlog 8_050_000_000 queue) queue)
dispatch_within_example =
    dispatch_within (backlog 8_050_000_000 queue) slow_event queue queue-QueueIsValid
      (inr (inl refl)) (omega arith)

get_minimal_modbus_action_interval_lem_example :
    (e : SchedulerEvent) × (get_minimal_modbus_action_interval queue ≡ some e.interval_time)
    × Holds e queue
    × All (λ (x : SchedulerEvent). nanoseconds e.interval_time ≤ nanoseconds x.interval_time) queue
get_minimal_modbus_action_interval_lem_example =
    get_minimal_modbus_action_interval_lem queue queue-nonempty (omega arith)

-- A quarter of the mean of 0.1 s and 1.5 s, as 1 / (1 / 0.1 s + 1 / 1.5 s).
pause_of_queue : get_minimal_modbus_event_offset fractions queue ≡ some (at_time 0 23_437_500)
unfolding get_minimal_modbus_event_offset inverse_mean_from interval_ns quarter
pause_of_queue = refl

get_minimal_modbus_event_offset_lem_example :
    (t : Timespec) × (get_minimal_modbus_event_offset fractions queue ≡ some t)
    × IsNormal t
    × All (λ (e : SchedulerEvent). 4 * nanoseconds t ≤ nanoseconds e.interval_time) queue
get_minimal_modbus_event_offset_lem_example =
    get_minimal_modbus_event_offset_lem fractions fractions-IsIeee queue queue-nonempty
      (omega arith)
