-- ===== src/Scheduler/Timetable.antt =====
-- What the scheduler promises to a master, with the order of its queue and its two-part times left
-- out: a timetable, and the theorem that the queue of src/Scheduler.c implements it.
use mathlib.Core.List.Perm
use mathlib.Core.Quot
use mathlib.Core.Quot.{Quot}
use revpi_modbus.Prelude.{
  ◌∙◌, ℕ, zero, suc, ◌+◌, ◌≤◌, ◌≡◌, ◌≢◌, refl, ap, some, List, [], ◌∷◌, map, length, All, Perm,
}
use revpi_modbus.Config.{ModbusAction}
use revpi_modbus.Scheduler.{
  nanoseconds, SchedulerEvent, ModbusEvent, insert_event_by_due_date, dispatch,
}
use revpi_modbus.Scheduler.Order.{due, DueFrom, QueueIsValid, insert-perm}
use revpi_modbus.Scheduler.Rounds.{event_of, renewed, due-renewed, insert-nonempty, Next-cons}

-- An action with the time at which it is due next and its interval, in nanoseconds.
pub record Entry : Type 0 where
  pub due_at : ℕ
  pub every : ℕ
  pub entry_action : ModbusAction

abbrev pub SameEntries : List Entry → List Entry → Type 0
SameEntries = Perm

-- Entries in no order.
abbrev pub Timetable : Type 0
Timetable = Quot SameEntries

-- An entry one interval later.
abbrev pub moved : Entry → Entry
moved x = record x { due_at = x.due_at + x.every }

-- One step: an entry than which none is due earlier is taken, its time and action are given out, and
-- it is due again exactly one interval later, however late the step is made.
pub record Tick (t : Timetable) (o : ℕ × ModbusAction) (t' : Timetable) : Type 0 where
  pub taken : Entry
  pub others : List Entry
  pub none_earlier : All (λ x. taken.due_at ≤ x.due_at) others
  pub before : t ≡ Quot.mk (taken ∷ others)
  pub output : o ≡ (taken.due_at, taken.entry_action)
  pub after : t' ≡ Quot.mk (moved taken ∷ others)

-- Steps one after the other, with what they give out.
abbrev pub Run : Timetable → List (ℕ × ModbusAction) → Timetable → Type 0
Run t [] t' = t ≡ t'
Run t (o ∷ os) t' = (m : Timetable) × Tick t o m × Run m os t'

-- The timetable that a queue stands for, and what an event gives out.
abbrev pub entry_of : SchedulerEvent → Entry
entry_of e = record { due_at = due e; every = nanoseconds e.interval_time; entry_action = e.action }

abbrev pub timetable_of : List SchedulerEvent → Timetable
timetable_of q = Quot.mk (map entry_of q)

abbrev pub output_of : ModbusEvent → ℕ × ModbusAction
output_of ev = (nanoseconds ev.trigger_time, ev.action)

none_earlier-map :
    (n : ℕ) (q : List SchedulerEvent) → DueFrom n q → All (λ x. n ≤ x.due_at) (map entry_of q)
none_earlier-map n [] d = tt
none_earlier-map n (e ∷ q) (le, d) = (le, none_earlier-map n q d)

-- What `n` calls give out and leave, as steps of the timetable.
pub record Refines (n : ℕ) (q : List SchedulerEvent) : Type 0 where
  pub events : List ModbusEvent
  pub left : List SchedulerEvent
  pub result : dispatch n q ≡ some (events, left)
  pub count : length events ≡ n
  pub run : Run (timetable_of q) (map output_of events) (timetable_of left)
  pub valid : QueueIsValid left

step-Tick :
    (e : SchedulerEvent) (q : List SchedulerEvent)
    → QueueIsValid (e ∷ q)
    → Tick
        (timetable_of (e ∷ q))
        (output_of (event_of e))
        (timetable_of (insert_event_by_due_date (renewed e) q))
step-Tick e q ((v, a), s) = record {
  taken = entry_of e;
  others = map entry_of q;
  none_earlier = none_earlier-map (due e) q s.0;
  before = refl;
  output = refl;
  after =
      Quot.sound (Perm.map entry_of (insert-perm (renewed e) q))
      ∙ ap
          (λ n. Quot.mk (
            record { due_at = n; every = nanoseconds e.interval_time; entry_action = e.action }
            ∷ map entry_of q))
          (due-renewed e v);
}

-- The queue refines the timetable: on a valid queue that is not empty, any number of calls of
-- `getNextEvent` succeeds, what they give out is what as many steps of its timetable give out, and
-- the queue left, which is valid, stands for the timetable that these steps leave.
pub dispatch-Refines : (n : ℕ) (q : List SchedulerEvent) → q ≢ [] → QueueIsValid q → Refines n q
unfolding dispatch
dispatch-Refines zero q ne w = record {
  events = [];
  left = q;
  result = refl;
  count = refl;
  run = refl;
  valid = w;
}
dispatch-Refines (suc n) [] ne w = absurd (ne refl)
dispatch-Refines (suc n) (e ∷ q) ne w =
    let step = Next-cons e q w in
    let rest =
      dispatch-Refines n (insert_event_by_due_date (renewed e) q) (insert-nonempty (renewed e) q)
        step.valid in
    record {
      events = event_of e ∷ rest.events;
      left = rest.left;
      result = rw (step.result, dispatch, rest.result);
      count = ap suc rest.count;
      run = (timetable_of (insert_event_by_due_date (renewed e) q), step-Tick e q w, rest.run);
      valid = rest.valid;
    }
