-- ===== src/Scheduler/Rounds.antt =====
-- `getNextEvent`, once and in a loop: the earliest event is processed, no action is lost, the times
-- never go back, and no action waits for ever.
use mathlib.Core.List.Perm
use revpi_modbus.Prelude.{
  length, ℕ, zero, suc, ◌+◌, ◌-◌, ◌≤◌, ◌≡◌, ◌≢◌, refl, ap, some, none, arith, List, [], ◌∷◌, map,
  Perm, Holds, inl, inr, Bool-cases, Option,
}
use revpi_modbus.Config.{ModbusAction}
use revpi_modbus.Scheduler.{
  nanoseconds, add_carry, is_before, SchedulerEvent, ModbusEvent, insert_event_by_due_date,
  determine_next_event, next, get_next_event, dispatch,
}
use revpi_modbus.Scheduler.Clock.{timespec_add-eq, add_carry-IsNormal, nanoseconds-add_carry}
use revpi_modbus.Scheduler.Order.{
  due, DueFrom, EventIsValid, IsSorted, QueueIsValid, All-insert, insert-perm, insert-QueueIsValid,
}

abbrev pub event_of : SchedulerEvent → ModbusEvent
event_of e = record { trigger_time = e.trigger_time; action = e.action }

abbrev pub actions : List SchedulerEvent → List ModbusAction
actions = map (λ (e : SchedulerEvent). e.action)

-- An event one interval later.
abbrev pub renewed : SchedulerEvent → SchedulerEvent
renewed e = record e { trigger_time = add_carry e.trigger_time e.interval_time }

renewed-EventIsValid : (e : SchedulerEvent) → EventIsValid e → EventIsValid (renewed e)
renewed-EventIsValid e v = record {
  trigger = add_carry-IsNormal e.trigger_time e.interval_time v.trigger v.interval;
  interval = v.interval;
  progress = v.progress;
}

pub due-renewed :
    (e : SchedulerEvent) → EventIsValid e → due (renewed e) ≡ due e + nanoseconds e.interval_time
due-renewed e v = nanoseconds-add_carry e.trigger_time e.interval_time v.trigger v.interval

pub get_next_event-eq :
    (e : SchedulerEvent) (q : List SchedulerEvent)
    → EventIsValid e
    → get_next_event (e ∷ q) ≡ next (event_of e) (insert_event_by_due_date (renewed e) q)
unfolding get_next_event
get_next_event-eq e q v = rw (
  timespec_add-eq e.trigger_time e.interval_time v.trigger v.interval,
  get_next_event,
  determine_next_event,
)

-- What one call on a valid queue that is not empty does.
pub record Next (q : List SchedulerEvent) (ev : ModbusEvent) (r : List SchedulerEvent)
    : Type 0 where
  pub result : get_next_event q ≡ next ev r
  pub earliest : DueFrom (nanoseconds ev.trigger_time) q
  pub valid : QueueIsValid r
  pub later : DueFrom (nanoseconds ev.trigger_time) r
  pub perm : Perm (actions r) (actions q)

pub Next-cons :
    (e : SchedulerEvent) (q : List SchedulerEvent)
    → QueueIsValid (e ∷ q)
    → Next (e ∷ q) (event_of e) (insert_event_by_due_date (renewed e) q)
Next-cons e q ((v, a), s) = record {
  result = get_next_event-eq e q v;
  earliest = (omega arith, s.0);
  valid = insert-QueueIsValid (renewed e) q (renewed-EventIsValid e v) (a, s.1);
  later = All-insert (λ x. due e ≤ due x) (renewed e) q (omega (arith, due-renewed e v)) s.0;
  perm = Perm.map (λ (x : SchedulerEvent). x.action) (insert-perm (renewed e) q);
}

-- On a valid queue that is not empty `getNextEvent` passes its assertions and returns 0; its event
-- is due no later than any other, and the queue left is valid, holds the same actions, and has
-- nothing due before that event.
pub get_next_event_lem :
    (q : List SchedulerEvent)
    → q ≢ []
    → QueueIsValid q
    → (ev : ModbusEvent) × (r : List SchedulerEvent) × Next q ev r
get_next_event_lem [] ne w = absurd (ne refl)
get_next_event_lem (e ∷ q) ne w =
    (event_of e, insert_event_by_due_date (renewed e) q, Next-cons e q w)

abbrev pub RisingFrom : ℕ → List ModbusEvent → Type 0
RisingFrom n [] = Unit
RisingFrom n (ev ∷ evs) =
    (n ≤ nanoseconds ev.trigger_time) × RisingFrom (nanoseconds ev.trigger_time) evs

-- What `n` calls do, where nothing in the queue is due before `t`.
pub record Dispatched (t n : ℕ) (q : List SchedulerEvent) : Type 0 where
  pub events : List ModbusEvent
  pub left : List SchedulerEvent
  pub result : dispatch n q ≡ some (events, left)
  pub count : length events ≡ n
  pub rising : RisingFrom t events
  pub valid : QueueIsValid left
  pub perm : Perm (actions left) (actions q)

pub insert-nonempty :
    (e : SchedulerEvent) (q : List SchedulerEvent) → insert_event_by_due_date e q ≢ []
unfolding insert_event_by_due_date
insert-nonempty e [] h = cc
insert-nonempty e (x ∷ q) h = ground arith

-- Any number of calls of `getNextEvent` on a valid queue that is not empty succeeds: as many events
-- come out, their trigger times never go back, and the queue stays valid with the same actions.
pub dispatch_lem :
    (n t : ℕ) (q : List SchedulerEvent) → q ≢ [] → QueueIsValid q → DueFrom t q → Dispatched t n q
unfolding dispatch
dispatch_lem zero t q ne w d = record {
  events = [];
  left = q;
  result = refl;
  count = refl;
  rising = tt;
  valid = w;
  perm = Perm.refl (actions q);
}
dispatch_lem (suc n) t [] ne w d = absurd (ne refl)
dispatch_lem (suc n) t (e ∷ q) ne w d =
    let step = Next-cons e q w in
    let rest =
      dispatch_lem n (due e) (insert_event_by_due_date (renewed e) q)
        (insert-nonempty (renewed e) q) step.valid step.later in
    record {
      events = event_of e ∷ rest.events;
      left = rest.left;
      result = rw (step.result, dispatch, rest.result);
      count = ap suc rest.count;
      rising = (d.0, rest.rising);
      valid = rest.valid;
      perm = Perm.trans rest.perm step.perm;
    }

-- How many nanoseconds, over all events, lie up to the time `t`: no call can be spent on events due
-- before `t` or at `t` more often.
pub backlog : ℕ → List SchedulerEvent → ℕ
backlog t [] = 0
backlog t (e ∷ q) = t + 1 - due e + backlog t q

backlog-insert :
    (t : ℕ) (e : SchedulerEvent) (q : List SchedulerEvent)
    → backlog t (insert_event_by_due_date e q) ≡ t + 1 - due e + backlog t q
unfolding backlog insert_event_by_due_date
backlog-insert t e [] = refl
backlog-insert t e (x ∷ q) = ground (arith, backlog-insert t e q)

Holds-insert :
    (e x : SchedulerEvent) (q : List SchedulerEvent)
    → Holds x q
    → Holds x (insert_event_by_due_date e q)
unfolding insert_event_by_due_date
Holds-insert e x [] h = inr h
Holds-insert e x (y ∷ q) h = elim (Bool-cases (is_before e.trigger_time y.trigger_time)) [
  | inl b ↦ rw b (inr h)
  | inr b ↦ rw b (elim h [ inl here ↦ inl here | inr there ↦ inr (Holds-insert e x q there) ])
]

Holds-DueFrom :
    (n : ℕ) (x : SchedulerEvent) (q : List SchedulerEvent) → DueFrom n q → Holds x q → n ≤ due x
Holds-DueFrom n x [] d h = absurd h
Holds-DueFrom n x (y ∷ q) d (inl e) = rw e d.0
Holds-DueFrom n x (y ∷ q) d (inr h) = Holds-DueFrom n x q d.1 h

DueFrom-zero : (q : List SchedulerEvent) → DueFrom 0 q
DueFrom-zero [] = tt
DueFrom-zero (e ∷ q) = (omega arith, DueFrom-zero q)

head-le :
    (x e : SchedulerEvent) (q : List SchedulerEvent)
    → IsSorted (e ∷ q)
    → Holds x (e ∷ q)
    → due e ≤ due x
head-le x e q s h = Holds-DueFrom (due e) x (e ∷ q) (omega arith, s.0) h

backlog-renewed :
    (n t : ℕ) (e : SchedulerEvent) (q : List SchedulerEvent)
    → EventIsValid e
    → due e ≤ t
    → backlog t (e ∷ q) ≤ suc n
    → backlog t (insert_event_by_due_date (renewed e) q) ≤ n
unfolding backlog
backlog-renewed n t e q v le b =
    omega (arith, backlog-insert t (renewed e) q, due-renewed e v, v.progress)

backlog-positive :
    (t : ℕ) (e : SchedulerEvent) (q : List SchedulerEvent) → due e ≤ t → ¬ (backlog t (e ∷ q) ≤ 0)
unfolding backlog
backlog-positive t e q le b = omega arith

-- The event came out, with the trigger time it had.
abbrev pub Processed : SchedulerEvent → Option (List ModbusEvent × List SchedulerEvent) → Type 0
Processed x none = ⊥
Processed x (some (evs, r)) = Holds (event_of x) evs

Processed-here :
    (x e : SchedulerEvent) (n : ℕ) (q : List SchedulerEvent)
    → x ≡ e
    → q ≢ []
    → QueueIsValid q
    → Processed x (elim (dispatch n q) [ none ↦ none | some (evs, r) ↦ some (event_of e ∷ evs, r) ])
Processed-here x e n q eq ne w =
    let d = dispatch_lem n 0 q ne w (DueFrom-zero q) in rw d.result (inl (ap event_of eq))

Processed-later :
    (x : SchedulerEvent) (ev : ModbusEvent) (o : Option (List ModbusEvent × List SchedulerEvent))
    → Processed x o
    → Processed x (elim o [ none ↦ none | some (evs, r) ↦ some (ev ∷ evs, r) ])
Processed-later x ev none h = h
Processed-later x ev (some (evs, r)) h = inr h

-- No action waits for ever: an event of a valid queue comes out, at its trigger time, within as
-- many calls of `getNextEvent` as the queue has nanoseconds up to that time, summed over its
-- events.
pub dispatch_within :
    (n : ℕ) (x : SchedulerEvent) (q : List SchedulerEvent)
    → QueueIsValid q
    → Holds x q
    → backlog (due x) q ≤ n
    → Processed x (dispatch n q)
unfolding dispatch
dispatch_within n x [] w h b = absurd h
dispatch_within zero x (e ∷ q) w h b = backlog-positive (due x) e q (head-le x e q w.1 h) b
dispatch_within (suc n) x (e ∷ q) w (inl eq) b =
    let step = Next-cons e q w in
    rw (step.result, dispatch)
      (Processed-here x e n (insert_event_by_due_date (renewed e) q) eq
        (insert-nonempty (renewed e) q) step.valid)
dispatch_within (suc n) x (e ∷ q) w (inr h) b =
    let step = Next-cons e q w in
    rw (step.result, dispatch)
      (Processed-later x (event_of e) (dispatch n (insert_event_by_due_date (renewed e) q)) (
        dispatch_within n x (insert_event_by_due_date (renewed e) q) step.valid
          (Holds-insert (renewed e) x q h)
          (backlog-renewed n (due x) e q w.0.0 (head-le x e q w.1 (inr h)) b)))
