-- ===== src/Master/Rounds.antt =====
-- The rounds of both loops of src/ModbusMasterThread.c.
use revpi_modbus.Scheduler.Rounds.{insert-nonempty, event_of, Next-cons, renewed}
use revpi_modbus.Prelude.{zero, suc, refl, subst, ◌⊎◌, ℕ, ◌≡◌, inl, inr, List, [], ◌∷◌, length, All}
use revpi_modbus.Config.{max_register_size_per_action}
use revpi_modbus.Scheduler.{
  insert_event_by_due_date, Timespec, IsNormal, SchedulerEvent, ModbusEvent,
}
use revpi_modbus.Scheduler.Order.{All-insert, QueueIsValid}
use revpi_modbus.External.{M, Env, History, IsDocumented}
use revpi_modbus.External.Reasoning.{Returns, Returns-bind}
use revpi_modbus.Master.{
  master_rounds, master_round, rtu_event, reconnect, again, tcp_event, Round, MasterDevice,
  MasterState,
}
use revpi_modbus.Master.Events.{
  ClockIsNormal, CanProcess, MasterIsValid, Continues, tcp_event_lem, rtu_event_lem,
}

-- What is left after some rounds.
abbrev pub RunsOn : Env → Round → Type 0
RunsOn env o =
    ((s : MasterState) × (o ≡ again s) × MasterIsValid env s)
    ⊎ ((buf : List ℕ) × (o ≡ reconnect buf) × (length buf ≡ max_register_size_per_action))

module _ (env : Env) (doc : IsDocumented env) (clock : ClockIsNormal env) (d : MasterDevice)
    (offset : Timespec) (normal : IsNormal offset) where
  -- What one event of a loop does, for the two loops.
  abbrev pub HandlesEvents : (ModbusEvent → MasterState → M Round) → Type 0
  HandlesEvents process =
      (ev : ModbusEvent) (s : MasterState) (h : History)
      → MasterIsValid env s
      → CanProcess env ev.action
      → Returns (λ o h'. Continues env doc clock d offset normal s o) (process ev s h)

  pub master_round_lem :
      (process : ModbusEvent → MasterState → M Round) (q : List SchedulerEvent) (s : MasterState)
      (h : History)
      → HandlesEvents process
      → s.queue ≡ q
      → MasterIsValid env s
      → Returns (λ o h'. Continues env doc clock d offset normal s o) (master_round env process s h)
  unfolding master_round
  master_round_lem process [] s h handles e v = absurd (v.nonempty e)
  master_round_lem process (x ∷ q) s h handles e v =
      let valid : QueueIsValid (x ∷ q) = subst QueueIsValid e v.valid in
      let can : All (λ (y : SchedulerEvent). CanProcess env y.action) (x ∷ q) =
        subst (All λ (y : SchedulerEvent). CanProcess env y.action) e v.can_process in
      let n = Next-cons x q valid in
      let s' = record s { queue = insert_event_by_due_date (renewed x) q } in
      let v' : MasterIsValid env s' = record {
        nonempty = insert-nonempty (renewed x) q;
        valid = n.valid;
        can_process = All-insert (λ y. CanProcess env y.action) (renewed x) q can.0 can.1;
        size = v.size;
        few_errors = v.few_errors;
      } in
      rw (master_round, e, n.result) (handles (event_of x) s' h v' can.0)

  -- A loop whose events are handled runs for any number of rounds: no assertion fails, no access
  -- leaves a buffer, and it ends in a valid state or with the end of the connection.
  master_rounds_handle :
      (process : ModbusEvent → MasterState → M Round) (n : ℕ) (s : MasterState) (h : History)
      → HandlesEvents process
      → MasterIsValid env s
      → Returns (λ o h'. RunsOn env o) (master_rounds env n process s h)
  unfolding master_rounds
  master_rounds_handle process zero s h handles v = inl (s, refl, v)
  master_rounds_handle process (suc n) s h handles v =
      Returns-bind (λ o h'. Continues env doc clock d offset normal s o) (λ o h'. RunsOn env o)
        (master_round env process s) _ h (master_round_lem process s.queue s h handles refl v)
        λ o h' c. elim c [
          | inl (s', is, v', counted) ↦ rw is (master_rounds_handle process n s' h' handles v')
          | inr (buf, is, size, many) ↦ rw (is, Returns) (inr (buf, refl, size))
        ]

  -- From a valid state the loop of the TCP master runs for any number of rounds: no assertion fails,
  -- no access leaves a buffer, and it ends in a valid state or with the end of the connection.
  pub tcp_rounds_lem :
      (n : ℕ) (s : MasterState) (h : History)
      → MasterIsValid env s
      → Returns (λ o h'. RunsOn env o) (master_rounds env n (tcp_event env d offset) s h)
  tcp_rounds_lem n s h v =
      master_rounds_handle (tcp_event env d offset) n s h
        (tcp_event_lem env doc clock d offset normal) v

  -- The same of the loop of the RTU master.
  rtu_rounds_lem :
      (n : ℕ) (s : MasterState) (h : History)
      → MasterIsValid env s
      → Returns (λ o h'. RunsOn env o) (master_rounds env n (rtu_event env d offset) s h)
  rtu_rounds_lem n s h v =
      master_rounds_handle (rtu_event env d offset) n s h
        (rtu_event_lem env doc clock d offset normal) v
