-- ===== src/Scheduler/Order.antt =====
-- The order of the queue: `insertEventByDueDate` and `initScheduler`.
use mathlib.Core.List.Perm
use revpi_modbus.Prelude.{
  ℕ, ◌≤◌, ◌<◌, ◌≡◌, refl, ap, true, false, arith, Bool-cases, inl, inr, List, [], ◌∷◌, ◌++◌, Perm,
  All,
}
use revpi_modbus.Scheduler.{
  IsNormal, nanoseconds, is_before, SchedulerEvent, insert_event_by_due_date,
}
use revpi_modbus.Scheduler.Clock.{is_before_iff}

-- When an event is due.
abbrev pub due : SchedulerEvent → ℕ
due e = nanoseconds e.trigger_time

abbrev pub DueFrom : ℕ → List SchedulerEvent → Type 0
DueFrom n q = All (λ e. n ≤ due e) q

-- The times of an event are normalised, and its interval is not zero.
pub record EventIsValid (e : SchedulerEvent) : Type 0 where
  pub trigger : IsNormal e.trigger_time
  pub interval : IsNormal e.interval_time
  pub progress : 0 < nanoseconds e.interval_time

abbrev pub IsSorted : List SchedulerEvent → Type 0
IsSorted [] = Unit
IsSorted (e ∷ q) = DueFrom (due e) q × IsSorted q

-- The invariant of the queue.
abbrev pub QueueIsValid : List SchedulerEvent → Type 0
QueueIsValid q = All EventIsValid q × IsSorted q

pub DueFrom-mono : (m n : ℕ) (q : List SchedulerEvent) → m ≤ n → DueFrom n q → DueFrom m q
DueFrom-mono m n [] h d = tt
DueFrom-mono m n (e ∷ q) h d = (omega arith, DueFrom-mono m n q h d.1)

-- Insertion puts every property of the new event and of the old ones into the new queue.
pub All-insert {κ} :
    (P : SchedulerEvent → Type κ) (e : SchedulerEvent) (q : List SchedulerEvent)
    → P e
    → All P q
    → All P (insert_event_by_due_date e q)
unfolding insert_event_by_due_date
All-insert P e [] p a = (p, tt)
All-insert P e (x ∷ q) p (px, a) = elim (Bool-cases (is_before e.trigger_time x.trigger_time)) [
  | inl h ↦ rw h (p, (px, a))
  | inr h ↦ rw h (px, All-insert P e q p a)
]

module _ (e : SchedulerEvent) (v : EventIsValid e) where
  before :
      (x : SchedulerEvent)
      → EventIsValid x
      → is_before e.trigger_time x.trigger_time ≡ true
      → due e < due x
  before x vx h = (is_before_iff e.trigger_time x.trigger_time v.trigger vx.trigger).0 h

  not_before :
      (x : SchedulerEvent)
      → EventIsValid x
      → is_before e.trigger_time x.trigger_time ≡ false
      → due x ≤ due e
  not_before x vx h =
      ground (arith, is_before_iff e.trigger_time x.trigger_time v.trigger vx.trigger)

  pub insert-IsSorted :
      (q : List SchedulerEvent)
      → All EventIsValid q
      → IsSorted q
      → IsSorted (insert_event_by_due_date e q)
  unfolding insert_event_by_due_date
  insert-IsSorted [] a s = (tt, tt)
  insert-IsSorted (x ∷ q) (vx, a) s = elim (Bool-cases (is_before e.trigger_time x.trigger_time)) [
    | inl h ↦
        let lt = before x vx h in
        rw h ((omega arith, DueFrom-mono (due e) (due x) q (omega arith) s.0), s)
    | inr h ↦
        rw h (All-insert (λ y. due x ≤ due y) e q (not_before x vx h) s.0, insert-IsSorted q a s.1)
  ]

  -- Where the new event goes.
  abbrev pub Placed : List SchedulerEvent → Type 0
  Placed q =
      (pre : List SchedulerEvent) × (post : List SchedulerEvent) × (q ≡ pre ++ post)
      × (insert_event_by_due_date e q ≡ pre ++ (e ∷ post))
      × All (λ x. due x ≤ due e) pre
      × All (λ x. due e < due x) post

  later :
      (x : SchedulerEvent) (q : List SchedulerEvent)
      → due e < due x
      → DueFrom (due x) q
      → All (λ y. due e < due y) q
  later x [] h d = tt
  later x (y ∷ q) h d = (omega arith, later x q h d.1)

  -- A valid event is inserted into a valid queue behind every event that is due no later, so behind
  -- those due at the same time, and before every event that is due later; nothing else changes.
  pub insert_event_by_due_date_lem : (q : List SchedulerEvent) → QueueIsValid q → Placed q
  unfolding insert_event_by_due_date
  insert_event_by_due_date_lem [] w = ([], [], refl, refl, tt, tt)
  insert_event_by_due_date_lem (x ∷ q) ((vx, a), s) =
      elim (Bool-cases (is_before e.trigger_time x.trigger_time)) [
        | inl h ↦ let lt = before x vx h in ([], x ∷ q, refl, rw h, tt, (lt, later x q lt s.0))
        | inr h ↦
            let (pre, post, split, placed, lo, hi) = insert_event_by_due_date_lem q (a, s.1) in
            (x ∷ pre, post, ap (◌∷◌ x) split, rw h (ap (◌∷◌ x) placed), (not_before x vx h, lo), hi)
      ]

-- Insertion adds the new event and loses none.
pub insert-perm :
    (e : SchedulerEvent) (q : List SchedulerEvent) → Perm (insert_event_by_due_date e q) (e ∷ q)
unfolding insert_event_by_due_date
insert-perm e [] = Perm.refl (e ∷ [])
insert-perm e (x ∷ q) = elim (Bool-cases (is_before e.trigger_time x.trigger_time)) [
  | inl h ↦ rw h (Perm.refl (e ∷ x ∷ q))
  | inr h ↦ rw h (Perm.trans (Perm.cons x (insert-perm e q)) (Perm.swap e x q))
]

pub insert-QueueIsValid :
    (e : SchedulerEvent) (q : List SchedulerEvent)
    → EventIsValid e
    → QueueIsValid q
    → QueueIsValid (insert_event_by_due_date e q)
insert-QueueIsValid e q v w = (All-insert EventIsValid e q v w.0, insert-IsSorted e v q w.0 w.1)
