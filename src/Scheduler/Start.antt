-- ===== src/Scheduler/Start.antt =====
-- `initScheduler` and `cleanupScheduler`: the queue that a master starts with.
use mathlib.Core.List.Perm
use mathlib.Core.List.{append-nil, perm_middle}
use revpi_modbus.Prelude.{
  suc, ℕ, ◌+◌, ◌*◌, ◌<◌, ◌≡◌, refl, true, some, arith, List, [], ◌∷◌, ◌++◌, map, Perm, All, ◌≢◌,
  subst, length, ap, false, Bool,
}
use revpi_modbus.Config.{ModbusAction}
use revpi_modbus.Scheduler.{
  init_scheduler, failed, cleanup_scheduler, Timespec, IsNormal, nanoseconds,
  nanoseconds_per_second, add_carry, SchedulerEvent, insert_event_by_due_date, interval_of,
  new_event, ready, init_events,
}
use revpi_modbus.Scheduler.Clock.{timespec_add-eq, add_carry-IsNormal, nanoseconds-add_carry}
use revpi_modbus.Scheduler.Order.{
  due, EventIsValid, QueueIsValid, All-insert, insert-perm, insert-QueueIsValid,
}

-- The interval of an action in microseconds, split into seconds and nanoseconds, is normalised and
-- stands for the same time.
pub interval_of_lem :
    (a : ModbusAction)
    → IsNormal (interval_of a) × (nanoseconds (interval_of a) ≡ a.interval_us * 1000)
unfolding interval_of
interval_of_lem a = (omega arith, omega arith)

-- The event that a normalised clock gives an action.
first_event : Timespec → ModbusAction → SchedulerEvent
first_event now a = record {
  interval_time = interval_of a;
  trigger_time = record {
    tv_sec = (add_carry now (interval_of a)).tv_sec + 1;
    tv_nsec = (add_carry now (interval_of a)).tv_nsec;
  };
  action = a;
}

abbrev pub Interval : ModbusAction → Type 0
Interval a = 0 < a.interval_us

abbrev pub first_due : Timespec → ModbusAction → ℕ
first_due now a = nanoseconds now + a.interval_us * 1000 + nanoseconds_per_second

new_event-eq :
    (now : Timespec) (a : ModbusAction) → IsNormal now → new_event now a ≡ some (first_event now a)
unfolding new_event first_event
new_event-eq now a h = rw (timespec_add-eq now (interval_of a) h (interval_of_lem a).0, new_event)

first_event-EventIsValid :
    (now : Timespec) (a : ModbusAction)
    → IsNormal now
    → Interval a
    → EventIsValid (first_event now a)
unfolding first_event
first_event-EventIsValid now a h i = record {
  trigger = add_carry-IsNormal now (interval_of a) h (interval_of_lem a).0;
  interval = (interval_of_lem a).0;
  progress = omega (arith, interval_of_lem a);
}

abbrev pub StartsAt : Timespec → SchedulerEvent → Type 0
StartsAt now e = (due e ≡ first_due now e.action) × (e.interval_time ≡ interval_of e.action)

first_event-StartsAt :
    (now : Timespec) (a : ModbusAction) → IsNormal now → StartsAt now (first_event now a)
unfolding first_event
first_event-StartsAt now a h = (
  omega
      (arith, nanoseconds-add_carry now (interval_of a) h (interval_of_lem a).0, interval_of_lem a),
  refl,
)

-- The allocations from the i-th to before the j-th succeed.
abbrev pub AllocatesAll : (ℕ → Bool) → ℕ → List ModbusAction → Type 0
AllocatesAll malloc i [] = Unit
AllocatesAll malloc i (a ∷ rest) = (malloc i ≡ true) × AllocatesAll malloc (i + 1) rest

-- What a caller may rely on in the queue that it gets: it is a valid queue, it holds one event for
-- each action, and each is due one interval and one second after `now`.
pub record Started (now : Timespec) (actions : List ModbusAction) (q : List SchedulerEvent)
    : Type 0 where
  pub valid : QueueIsValid q
  pub starts : All (StartsAt now) q
  pub perm : Perm (map (λ (e : SchedulerEvent). e.action) q) actions

Started-nil : (now : Timespec) → Started now [] []
Started-nil now = record { valid = (tt, tt); starts = tt; perm = Perm.refl [] }

Started-insert :
    (now : Timespec) (a : ModbusAction) (done : List ModbusAction) (q : List SchedulerEvent)
    → IsNormal now
    → Interval a
    → Started now done q
    → Started now (a ∷ done) (insert_event_by_due_date (first_event now a) q)
Started-insert now a done q h i s =
    let e = first_event now a in
    record {
      valid = insert-QueueIsValid e q (first_event-EventIsValid now a h i) s.valid;
      starts = All-insert (StartsAt now) e q (first_event-StartsAt now a h) s.starts;
      perm = Perm.trans (Perm.map _ (insert-perm e q)) (unfold first_event in Perm.cons a s.perm);
    }

pub cleanup_scheduler-eq : (q : List SchedulerEvent) → cleanup_scheduler q ≡ (q, [])
unfolding cleanup_scheduler
cleanup_scheduler-eq [] = refl
cleanup_scheduler-eq (e ∷ q) = rw (cleanup_scheduler-eq q)

init_scheduler-eq :
    (malloc : ℕ → Bool) (now : Timespec) (pre : List ModbusAction) (a : ModbusAction)
    (post : List ModbusAction)
    → init_scheduler malloc now (pre ++ (a ∷ post))
      ≡ init_events malloc 0 now (pre ++ (a ∷ post)) []
unfolding init_scheduler
init_scheduler-eq malloc now [] a post = refl
init_scheduler-eq malloc now (x ∷ pre) a post = refl

module _ (malloc : ℕ → Bool) (now : Timespec) (h : IsNormal now) where
  init_events-ready :
      (i : ℕ) (actions : List ModbusAction) (q : List SchedulerEvent) (done : List ModbusAction)
      → All Interval actions
      → AllocatesAll malloc i actions
      → Started now done q
      → (r : List SchedulerEvent) × (init_events malloc i now actions q ≡ ready r)
        × Started now (actions ++ done) r
  unfolding init_events
  init_events-ready i [] q done v ok s = (q, refl, s)
  init_events-ready i (a ∷ rest) q done (va, v) (oka, ok) s =
      let (r, eq, t) =
        init_events-ready (i + 1) rest (insert_event_by_due_date (first_event now a) q) (a ∷ done) v
          ok (Started-insert now a done q h va s) in
      (
        r,
        rw (oka, init_events, new_event-eq now a h) eq,
        record {
          valid = t.valid;
          starts = t.starts;
          perm = Perm.trans t.perm (perm_middle rest done);
        },
      )

  -- The events queued before an allocation fails are freed, and only those.
  init_events-failed :
      (i : ℕ) (pre : List ModbusAction) (a : ModbusAction) (post : List ModbusAction)
      (q : List SchedulerEvent) (done : List ModbusAction)
      → All Interval pre
      → AllocatesAll malloc i pre
      → malloc (i + length pre) ≡ false
      → Started now done q
      → (freed : List SchedulerEvent) × (init_events malloc i now (pre ++ (a ∷ post)) q
          ≡ failed freed)
        × Perm (map (λ (e : SchedulerEvent). e.action) freed) (pre ++ done)
  unfolding init_events
  init_events-failed i [] a post q done v ok no_memory s =
      let no_memory' : malloc i ≡ false =
        rw (ap malloc (let e : i ≡ i + 0 = omega arith in e)) no_memory in
      (q, rw (no_memory', init_events, cleanup_scheduler-eq q), s.perm)
  init_events-failed i (x ∷ pre) a post q done (vx, v) (okx, ok) no_memory s =
      let (freed, eq, perm) =
        init_events-failed (i + 1) pre a post (insert_event_by_due_date (first_event now x) q)
          (x ∷ done) v ok
          (rw (ap malloc (let e : i + 1 + length pre ≡ i + suc (length pre) = omega arith in e))
            no_memory)
          (Started-insert now x done q h vx s) in
      (
        freed,
        rw (okx, init_events, new_event-eq now x h) eq,
        Perm.trans perm (perm_middle pre done),
      )

  -- With a normalised clock, at least one action, no zero interval and memory for every event,
  -- `initScheduler` passes its assertions and returns 0 with a valid queue that holds exactly one
  -- event for each action, due one interval and one second after now.
  pub init_scheduler_ready :
      (actions : List ModbusAction)
      → actions ≢ []
      → All Interval actions
      → AllocatesAll malloc 0 actions
      → (q : List SchedulerEvent) × (init_scheduler malloc now actions ≡ ready q)
        × Started now actions q
  unfolding init_scheduler
  init_scheduler_ready [] nonempty v ok = absurd (nonempty refl)
  init_scheduler_ready (a ∷ rest) nonempty v ok =
      let (q, eq, s) = init_events-ready 0 (a ∷ rest) [] [] v ok (Started-nil now) in
      (q, eq, subst (λ l. Started now l q) (append-nil (a ∷ rest)) s)

  -- Where the allocation for an action fails after those for the actions before it, `initScheduler`
  -- returns -1 and frees exactly the events of the actions before it.
  pub init_scheduler_failed :
      (pre : List ModbusAction) (a : ModbusAction) (post : List ModbusAction)
      → All Interval pre
      → AllocatesAll malloc 0 pre
      → malloc (length pre) ≡ false
      → (freed : List SchedulerEvent) × (init_scheduler malloc now (pre ++ (a ∷ post))
          ≡ failed freed)
        × Perm (map (λ (e : SchedulerEvent). e.action) freed) pre
  unfolding init_scheduler
  init_scheduler_failed pre a post v ok no_memory =
      let (freed, eq, perm) =
        init_events-failed 0 pre a post [] [] v ok
          (rw (ap malloc (let e : 0 + length pre ≡ length pre = omega arith in e)) no_memory)
          (Started-nil now) in
      (
        freed,
        rw (init_scheduler-eq malloc now pre a post) eq,
        subst (λ l. Perm (map (λ (e : SchedulerEvent). e.action) freed) l) (append-nil pre) perm,
      )
