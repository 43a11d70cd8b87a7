-- ===== src/Master/Whole.antt =====
-- What the queue that `initScheduler` makes of parsed actions gives a master's loop.
use revpi_modbus.Scheduler.Quarter.{IsBrief}
use revpi_modbus.Scheduler.Intervals.{Comparable, get_minimal_modbus_action_interval_lem, Intervals}
use revpi_modbus.Master.Connection.{ran, first_state, not_connected, Connection}
use native.Mathlib.Bridge.{le_prop}
use mathlib.Core.List.{Mem, not-mem-nil, eq-or-mem_of_mem-cons, mem-cons_self, mem-cons_of_mem}
use mathlib.Core.Logic.Or
use mathlib.Core.List.Perm
use revpi_modbus.Prelude.{
  ◌*◌, some, Holds, inr, inl, ◌⊎◌, ◌^◌, ◌<◌, length, sym, subst, ℕ, ◌≡◌, ◌≢◌, true, List, [], ◌∷◌,
  All, Perm, map, arith,
}
use revpi_modbus.Config.{ModbusAction, max_register_size_per_action}
use revpi_modbus.Scheduler.{
  nanoseconds, get_minimal_modbus_action_interval, interval_of, Timespec, IsNormal, SchedulerEvent,
}
use revpi_modbus.Scheduler.Start.{interval_of_lem, StartsAt, Started}
use revpi_modbus.External.{Env, IsDocumented}
use revpi_modbus.Processor.{accepts}
use revpi_modbus.Parser.Actions.{ActionIsParsed}
use revpi_modbus.Master.{Round, MasterDevice}
use revpi_modbus.Master.Events.{ClockIsNormal, CanProcess, MasterIsValid}
use revpi_modbus.Master.Rounds.{RunsOn}

All-mem :
    {A : Type 0} (P : A → Type 0)
    → ((a : A) → IsProp (P a))
    → (xs : List A) → All P xs
    → (a : A) → Mem a xs
    → P a
All-mem P prop [] ok a m = absurd (not-mem-nil m)
All-mem P prop (x ∷ xs) (p, ok) a m =
    Or.elim (prop a) (eq-or-mem_of_mem-cons m) (λ e. subst P (sym e) p)
      (λ m'. All-mem P prop xs ok a m')

All-of_mem : {A : Type 0} (P : A → Type 0) (xs : List A) → ((a : A) → Mem a xs → P a) → All P xs
All-of_mem P [] ok = tt
All-of_mem P (x ∷ xs) ok = (ok x mem-cons_self, All-of_mem P xs λ a m. ok a (mem-cons_of_mem x m))

pub All-Perm :
    {A : Type 0} (P : A → Type 0)
    → ((a : A) → IsProp (P a))
    → (xs ys : List A) → Perm xs ys
    → All P xs
    → All P ys
All-Perm P prop xs ys p ok = All-of_mem P ys λ a m. All-mem P prop xs ok a ((Perm.mem_iff p).1 m)

CanProcess-prop : (env : Env) (a : ModbusAction) → IsProp (CanProcess env a)
CanProcess-prop env a = hlevel (le_prop)

pub All-unmap :
    (P : ModbusAction → Type 0) (q : List SchedulerEvent)
    → All P (map (λ (e : SchedulerEvent). e.action) q)
    → All (λ (e : SchedulerEvent). P e.action) q
All-unmap P [] ok = tt
All-unmap P (e ∷ q) (p, ok) = (p, All-unmap P q ok)

processable :
    (env : Env) (actions : List ModbusAction)
    → All ActionIsParsed actions
    → All (λ a. accepts env a ≡ true) actions
    → All (CanProcess env) actions
processable env [] parsed accepted = tt
processable env (a ∷ rest) (p, parsed) (ok, accepted) =
    ((p.count.1, ok), processable env rest parsed accepted)

-- An interval that is not zero, in 32 bits.
abbrev IsTimed : ModbusAction → Type 0
IsTimed a = (0 < a.interval_us) × (a.interval_us < 2 ^ 32)

IsTimed-prop : (a : ModbusAction) → IsProp (IsTimed a)
IsTimed-prop a = hlevel (le_prop)

timed : (actions : List ModbusAction) → All ActionIsParsed actions → All IsTimed actions
timed [] parsed = tt
timed (a ∷ rest) (p, parsed) = (omega (arith, p.interval.1), timed rest parsed)

started-Intervals :
    (now : Timespec) (q : List SchedulerEvent)
    → All (StartsAt now) q
    → All (λ (e : SchedulerEvent). IsTimed e.action) q
    → Intervals q
unfolding interval_of
started-Intervals now [] st small = tt
started-Intervals now (e ∷ q) ((d, same), st) ((gt, lt), small) = (
  subst Comparable (sym same)
      (record { normal = (interval_of_lem e.action).0; short = omega arith }),
  started-Intervals now q st small,
)

started-IsBrief :
    (now : Timespec) (q : List SchedulerEvent)
    → All (StartsAt now) q
    → All (λ (e : SchedulerEvent). IsTimed e.action) q
    → All IsBrief q
started-IsBrief now [] st small = tt
started-IsBrief now (e ∷ q) ((d, same), st) ((gt, lt), small) =
    let length_ns : nanoseconds e.interval_time ≡ e.action.interval_us * 1000 =
      rw same (interval_of_lem e.action).1 in
    ((omega (arith, length_ns), omega (arith, length_ns)), started-IsBrief now q st small)

held-IsNormal :
    (e : SchedulerEvent) (q : List SchedulerEvent)
    → Intervals q
    → Holds e q
    → IsNormal e.interval_time
held-IsNormal e (x ∷ q) (c, cs) (inl same) =
    subst (λ (y : SchedulerEvent). IsNormal y.interval_time) (sym same) c.normal
held-IsNormal e (x ∷ q) (c, cs) (inr held) = held-IsNormal e q cs held
held-IsNormal e [] cs held = absurd held

module _ (env : Env) (doc : IsDocumented env) (clock : ClockIsNormal env) (d : MasterDevice) where
  started :
      (now : Timespec) (actions : List ModbusAction) (buf : List ℕ) (q : List SchedulerEvent)
      → actions ≢ []
      → length buf ≡ max_register_size_per_action
      → All (CanProcess env) actions
      → Started now actions q
      → MasterIsValid env (first_state buf q)
  started now actions buf q some_actions size ok s = record {
    nonempty = λ e. some_actions (
        sym (
          Perm.nil-eq
            (subst (λ l. Perm (map (λ (x : SchedulerEvent). x.action) l) actions) e s.perm)));
    valid = s.valid;
    can_process = All-unmap (CanProcess env) q (
        All-Perm (CanProcess env) (CanProcess-prop env) actions
          (map (λ (e : SchedulerEvent). e.action) q) (Perm.symm s.perm) ok);
    size = size;
    few_errors = omega arith;
  }

  module _ (actions : List ModbusAction) (some_actions : actions ≢ [])
      (parsed : All ActionIsParsed actions) (accepted : All (λ a. accepts env a ≡ true) actions)
      (buf : List ℕ) (size : length buf ≡ max_register_size_per_action) where
    -- What a started queue gives: a valid first state, and a shortest interval that is normalised.
    pub first_state_lem :
        (now : Timespec) (q : List SchedulerEvent)
        → Started now actions q
        → MasterIsValid env (first_state buf q)
          × ((t : Timespec) × (get_minimal_modbus_action_interval q ≡ some t) × IsNormal t)
          × All IsBrief q
    first_state_lem now q s =
        let v =
          started now actions buf q some_actions size (processable env actions parsed accepted) s in
        let small = All-unmap IsTimed q (
          All-Perm IsTimed IsTimed-prop actions (map (λ (e : SchedulerEvent). e.action) q)
            (Perm.symm s.perm) (timed actions parsed)) in
        let intervals = started-Intervals now q s.starts small in
        let (e, least, held, m) = get_minimal_modbus_action_interval_lem q v.nonempty intervals in
        (
          v,
          (e.interval_time, least, held-IsNormal e q intervals held),
          started-IsBrief now q s.starts small,
        )

  -- A connection is not made, or its loop ran.
  abbrev pub Connected : Connection → Type 0
  Connected o = (o ≡ not_connected) ⊎ ((r : Round) × (o ≡ ran r) × RunsOn env r)
