-- ===== src/Master/Traces.antt =====
-- The calls of the rounds of both loops of src/ModbusMasterThread.c.
use revpi_modbus.Prelude.{
  zero, suc, refl, subst, ltb, ◌+◌, ℕ, ◌≡◌, inl, inr, List, [], ◌∷◌, length, All, Bool-cases,
}
use revpi_modbus.Prelude.Int.{ℤ, is_neg}
use revpi_modbus.Config.{max_register_size_per_action}
use revpi_modbus.Scheduler.{Timespec, IsNormal, SchedulerEvent, ModbusEvent}
use revpi_modbus.Scheduler.Clock.{timespec_add-eq}
use revpi_modbus.Scheduler.Rounds.{Next-cons, event_of, renewed}
use revpi_modbus.Scheduler.Order.{All-insert, QueueIsValid}
use revpi_modbus.External.{
  ◌>>=◌, call, branch, followed_by, clock_gettime, sleep_until, modbus_set_slave, modbus_close,
  Call, Env, History, IsDocumented, M,
}
use revpi_modbus.External.Reasoning.{Returns, Returns-mono, Returns-both}
use revpi_modbus.Processor.{
  process_modbus_action, reset_modbus_action_status, reset_modbus_master_status,
}
use revpi_modbus.Processor.Scope.{start, after}
use revpi_modbus.Master.{
  reset_all, process_event, tcp_result, tcp_event, rtu_event, master_round, master_rounds, Round,
  MasterDevice, MasterState, max_errors,
}
use revpi_modbus.Master.Events.{
  CanProcess, ClockIsNormal, MasterIsValid, Continues, tcp_event_lem, rtu_event_lem,
}
use revpi_modbus.Master.Rounds.{RunsOn, HandlesEvents, master_round_lem}
use revpi_modbus.Master.Scope.{Confined, Confined-from, Confined-bind}
use revpi_modbus.Master.Confined.{
  AreServed, HasDevice, HasAction, RoundServes, reset-Confined, reset_all-Confined,
  process_modbus_action-Confined,
}

module _ (env : Env) (doc : IsDocumented env) (clock : ClockIsNormal env) (d : MasterDevice)
    (offset : Timespec) (normal : IsNormal offset) (P : Call → Type 0)
    (device : HasDevice P d) where
  -- The result of a transfer, with a buffer of its length.
  abbrev KeepsLength : ℤ × Timespec × List ℕ → Type 0
  KeepsLength r = length r.2 ≡ max_register_size_per_action

  process_event-Confined :
      (ev : ModbusEvent) (s : MasterState) (h : History)
      → CanProcess env ev.action
      → length s.buffer ≡ max_register_size_per_action
      → HasAction P ev.action
      → Returns (Confined P KeepsLength h) (process_event env ev offset s h)
  unfolding process_event
  process_event-Confined ev s h can size own =
      Confined-from P KeepsLength h h₃ (process_event env ev offset s h)
        (after _ (own (modbus_set_slave ev.action.slave_address) (inr (inr refl))) (
          after _ (device (sleep_until s.earliest_next_trigger_time) (inr tt))
            (after _ (device (sleep_until ev.trigger_time) (inr tt)) start)))
        (Confined-bind P (λ (r : ℤ × List ℕ). length r.1 ≡ max_register_size_per_action) KeepsLength
          (process_modbus_action env ev.action s.buffer) _ h₃
          (process_modbus_action-Confined env P d device doc ev.action s.buffer h₃ can size own)
          λ r h' kept.
            rw
              (timespec_add-eq (env.answer h' clock_gettime).time offset (clock h') normal, Returns)
              (kept, after _ (device clock_gettime (inr tt)) start))
    where
      h₃ : History
      h₃ = followed_by env (modbus_set_slave ev.action.slave_address) (
          followed_by env (sleep_until s.earliest_next_trigger_time)
            (followed_by env (sleep_until ev.trigger_time) h))

  tcp_result-Confined :
      (s : MasterState) (r : ℤ × Timespec × List ℕ) (h : History)
      → AreServed P s.queue
      → Returns (Confined P (RoundServes P) h) (tcp_result env s r h)
  unfolding tcp_result
  tcp_result-Confined s (ret, t, buf) h serves = elim (Bool-cases (is_neg ret)) [
    | inl failed ↦ elim (Bool-cases (ltb max_errors (s.err_cnt + 1))) [
      | inl many ↦
          rw (failed, many, branch, ◌>>=◌, call, Returns)
            (tt, after _ (device modbus_close (inr tt)) start)
      | inr few ↦ rw (failed, few, branch, Returns) (serves, start)
    ]
    | inr fine ↦ rw (fine, branch, Returns) (serves, start)
  ]

  -- What one event of a loop does, for the two loops.
  abbrev ConfinesEvents : (ModbusEvent → MasterState → M Round) → Type 0
  ConfinesEvents process =
      (ev : ModbusEvent) (s : MasterState) (h : History)
      → CanProcess env ev.action
      → length s.buffer ≡ max_register_size_per_action
      → AreServed P s.queue
      → HasAction P ev.action
      → Returns (Confined P (RoundServes P) h) (process ev s h)

  tcp_event-Confined : ConfinesEvents (tcp_event env d offset)
  unfolding tcp_event reset_modbus_master_status
  tcp_event-Confined ev s h can size serves own =
      Confined-bind P (λ v. Unit {0}) (RoundServes P)
        (reset_modbus_action_status env ev.action.reset_status_byte_offset
          ev.action.reset_status_bit_offset ev.action.status_byte_offset)
        _ h
        (reset-Confined env P ev.action.reset_status_byte_offset ev.action.reset_status_bit_offset
          ev.action.status_byte_offset h λ c st. own c (inr (inl st)))
        λ a h₁ u.
          Confined-bind P (λ v. Unit {0}) (RoundServes P)
            (reset_modbus_action_status env d.status_reset_byte 0 d.status_byte) _ h₁
            (reset-Confined env P d.status_reset_byte 0 d.status_byte h₁ λ c st. device c (inl st))
            λ m h₂ u'.
              Confined-bind P KeepsLength (RoundServes P) (process_event env ev offset s)
                (tcp_result env s) h₂ (process_event-Confined ev s h₂ can size own)
                λ r h₃ kept. tcp_result-Confined s r h₃ serves

  rtu_event-Confined : ConfinesEvents (rtu_event env d offset)
  unfolding rtu_event reset_modbus_master_status
  rtu_event-Confined ev s h can size serves own =
      Confined-bind P (λ v. Unit {0}) (RoundServes P) (reset_all env s.queue) _ h
        (reset_all-Confined env P s.queue h serves)
        λ a h₁ u.
          Confined-bind P (λ v. Unit {0}) (RoundServes P)
            (reset_modbus_action_status env d.status_reset_byte 0 d.status_byte) _ h₁
            (reset-Confined env P d.status_reset_byte 0 d.status_byte h₁ λ c st. device c (inl st))
            λ m h₂ u'.
              Confined-bind P KeepsLength (RoundServes P) (process_event env ev offset s) _ h₂
                (process_event-Confined ev s h₂ can size own) λ r h₃ kept. (serves, start)

  master_round-Confined :
      (process : ModbusEvent → MasterState → M Round) (q : List SchedulerEvent) (s : MasterState)
      (h : History)
      → ConfinesEvents process
      → s.queue ≡ q
      → MasterIsValid env s
      → AreServed P s.queue
      → Returns (Confined P (RoundServes P) h) (master_round env process s h)
  unfolding master_round
  master_round-Confined process [] s h confines e v serves = absurd (v.nonempty e)
  master_round-Confined process (x ∷ q) s h confines e v serves =
      let can : All (λ (y : SchedulerEvent). CanProcess env y.action) (x ∷ q) =
        subst (All λ (y : SchedulerEvent). CanProcess env y.action) e v.can_process in
      let own : AreServed P (x ∷ q) = subst (AreServed P) e serves in
      let n = Next-cons x q (subst QueueIsValid e v.valid) in
      rw (master_round, e, n.result)
        (confines (event_of x) _ h can.0 v.size
          (All-insert (λ a. HasAction P a.action) (renewed x) q own.0 own.1) own.0)

  -- The calls of any number of rounds are those for the device and those that serve an action.
  master_rounds-Confined :
      (process : ModbusEvent → MasterState → M Round) (n : ℕ) (s : MasterState) (h : History)
      → HandlesEvents env doc clock d offset normal process
      → ConfinesEvents process
      → MasterIsValid env s
      → AreServed P s.queue
      → Returns (Confined P (RunsOn env) h) (master_rounds env n process s h)
  unfolding master_rounds
  master_rounds-Confined process zero s h handles confines v serves = (inl (s, refl, v), start)
  master_rounds-Confined process (suc n) s h handles confines v serves =
      Confined-bind P (λ o. Continues env doc clock d offset normal s o × RoundServes P o)
        (RunsOn env) (master_round env process s) _ h
        (Returns-mono
          (λ o h'. Continues env doc clock d offset normal s o × Confined P (RoundServes P) h o h')
          _ (master_round env process s h)
          (Returns-both (λ o h'. Continues env doc clock d offset normal s o)
            (Confined P (RoundServes P) h) (master_round env process s h)
            (master_round_lem env doc clock d offset normal process s.queue s h handles refl v)
            (master_round-Confined process s.queue s h confines refl v serves))
          λ o h' r. ((r.0, r.1.0), r.1.1))
        λ o h' c. elim c.0 [
          | inl (s', is, v', counted) ↦ rw is (
              master_rounds-Confined process n s' h' handles confines v'
                (subst (RoundServes P) is c.1))
          | inr (buf, is, size, many) ↦ rw (is, Returns) (inr (buf, refl, size), start)
        ]

  pub tcp_rounds-Confined :
      (n : ℕ) (s : MasterState) (h : History)
      → MasterIsValid env s
      → AreServed P s.queue
      → Returns (Confined P (RunsOn env) h) (master_rounds env n (tcp_event env d offset) s h)
  tcp_rounds-Confined n s h v serves =
      master_rounds-Confined (tcp_event env d offset) n s h
        (tcp_event_lem env doc clock d offset normal) tcp_event-Confined v serves

  pub rtu_rounds-Confined :
      (n : ℕ) (s : MasterState) (h : History)
      → MasterIsValid env s
      → AreServed P s.queue
      → Returns (Confined P (RunsOn env) h) (master_rounds env n (rtu_event env d offset) s h)
  rtu_rounds-Confined n s h v serves =
      master_rounds-Confined (rtu_event env d offset) n s h
        (rtu_event_lem env doc clock d offset normal) rtu_event-Confined v serves
