-- ===== src/Scheduler.antt =====
-- src/Scheduler.c and src/Scheduler.h: the queue of a master's actions, ordered by due date.
-- A queue is the list of its events, first due first. An action is shared with the configuration
-- and never changed after parsing, so an event holds its value. `none` is a failed assertion.
mod Time
pub mod Clock
pub mod Intervals
pub mod Offset
pub mod Quarter
pub mod Order
pub mod Rounds
pub mod Start
pub mod Timetable
use revpi_modbus.Prelude.{
  ℕ, zero, suc, ◌+◌, ◌-◌, ◌*◌, ◌/◌, ◌%◌, ◌^◌, Bool, true, false, Option, none, some, List, [], ◌∷◌,
  ltb, if◌then◌else◌, ◌==◌, ◌&&◌,
}
use revpi_modbus.Prelude.Int.{is_neg}
use revpi_modbus.Config.{ModbusAction}
pub use Time.{Timespec, nanoseconds_per_second, microseconds_per_second, nanoseconds, IsNormal}
unfoldable pub use Time.{timespec_add, add_carry, timespec_diff, sub_borrow, is_before}

-- `struct schedulerEvent`.
pub record SchedulerEvent : Type 0 where
  pub interval_time : Timespec
  pub trigger_time : Timespec
  pub action : ModbusAction

-- `tModbusEvent`.
pub record ModbusEvent : Type 0 where
  pub trigger_time : Timespec
  pub action : ModbusAction

-- A call of `insertEventByDueDate`: before the first event that is due later, else at the end.
unfoldable pub insert_event_by_due_date : SchedulerEvent → List SchedulerEvent → List SchedulerEvent
insert_event_by_due_date new [] = new ∷ []
insert_event_by_due_date new (e ∷ rest) =
    if is_before new.trigger_time e.trigger_time
    then new ∷ e ∷ rest
    else e ∷ insert_event_by_due_date new rest

-- `cleanupScheduler` removes and frees the first event until none is left: what it freed, in
-- order, and the queue.
unfoldable pub cleanup_scheduler : List SchedulerEvent → List SchedulerEvent × List SchedulerEvent
cleanup_scheduler [] = ([], [])
cleanup_scheduler (e ∷ rest) = let (freed, left) = cleanup_scheduler rest in (e ∷ freed, left)

-- The interval of an action, split into seconds and nanoseconds.
unfoldable pub interval_of : ModbusAction → Timespec
interval_of a = record {
  tv_sec = a.interval_us / microseconds_per_second;
  tv_nsec = a.interval_us % microseconds_per_second * 1000;
}

-- The event that `initScheduler` makes of an action: due one interval and one second from now.
unfoldable pub new_event : Timespec → ModbusAction → Option SchedulerEvent
new_event now a = elim (timespec_add now (interval_of a)) [
  | none ↦ none
  | some t ↦ some (record {
    interval_time = interval_of a;
    trigger_time = record t { tv_sec = t.tv_sec + 1 };
    action = a;
  })
]

-- What `initScheduler` ends with: a failed assertion, -1 with the events it freed, or 0 with the
-- queue.
pub data InitResult : Type 0 where
  aborted : InitResult
  failed : List SchedulerEvent → InitResult
  ready : List SchedulerEvent → InitResult

-- Its loop over the actions. `malloc i` says whether the i-th allocation succeeds.
unfoldable pub init_events :
    (ℕ → Bool) → ℕ → Timespec → List ModbusAction → List SchedulerEvent → InitResult
init_events malloc i now [] q = ready q
init_events malloc i now (a ∷ rest) q = elim (malloc i) [
  | false ↦ failed (cleanup_scheduler q).0
  | true ↦ elim (new_event now a) [
    | none ↦ aborted
    | some e ↦ init_events malloc (i + 1) now rest (insert_event_by_due_date e q)
  ]
]

unfoldable pub init_scheduler : (ℕ → Bool) → Timespec → List ModbusAction → InitResult
unfolding init_events
init_scheduler malloc now [] = failed []
init_scheduler malloc now (a ∷ rest) = init_events malloc 0 now (a ∷ rest) []

-- `determineNextEvent` on a queue with a first event: the event to process, and the queue in which
-- it is due one interval later.
unfoldable pub determine_next_event :
    SchedulerEvent → List SchedulerEvent → Option (ModbusEvent × List SchedulerEvent)
determine_next_event e rest = elim (timespec_add e.trigger_time e.interval_time) [
  | none ↦ none
  | some t ↦ some (
    record { trigger_time = e.trigger_time; action = e.action },
    insert_event_by_due_date (record e { trigger_time = t }) rest,
  )
]

-- What `getNextEvent` ends with: a failed assertion, -1 on an empty queue, or 0 with the event and
-- the queue.
pub data NextResult : Type 0 where
  aborted : NextResult
  no_entries : NextResult
  next : ModbusEvent → List SchedulerEvent → NextResult

unfoldable pub get_next_event : List SchedulerEvent → NextResult
unfolding determine_next_event
get_next_event [] = no_entries
get_next_event (e ∷ rest) = elim (determine_next_event e rest) [
  | none ↦ aborted
  | some (ev, q) ↦ next ev q
]

-- The loop of `get_minimal_modbus_action_interval` with the minimum so far.
unfoldable pub minimal_interval_from : Timespec → List SchedulerEvent → Option Timespec
minimal_interval_from m [] = some m
minimal_interval_from m (e ∷ rest) = elim (timespec_diff e.interval_time m) [
  | none ↦ none
  | some (diff, nsec) ↦ minimal_interval_from (if is_neg diff then e.interval_time else m) rest
]

-- The value `get_minimal_modbus_action_interval` starts from.
abbrev pub longest_interval : Timespec
longest_interval = record { tv_sec = 2 ^ 31 - 1; tv_nsec = nanoseconds_per_second - 1 }

unfoldable pub get_minimal_modbus_action_interval : List SchedulerEvent → Option Timespec
unfolding minimal_interval_from
get_minimal_modbus_action_interval q = minimal_interval_from longest_interval q

-- `n` calls of `getNextEvent`, as the loop of a master thread makes them: the events to process in
-- order, and the queue left. `none` if a call fails.
unfoldable pub dispatch : ℕ → List SchedulerEvent → Option (List ModbusEvent × List SchedulerEvent)
unfolding get_next_event
dispatch zero q = some ([], q)
dispatch (suc n) q = elim (get_next_event q) [
  | aborted ↦ none
  | no_entries ↦ none
  | next ev q' ↦ elim (dispatch n q') [ none ↦ none | some (evs, r) ↦ some (ev ∷ evs, r) ]
]
