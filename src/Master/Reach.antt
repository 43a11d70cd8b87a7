-- ===== src/Master/Reach.antt =====
-- The calls of a master's thread as a whole, over TCP and over RTU.
use revpi_modbus.Scheduler.Offset.{Double}
use revpi_modbus.Scheduler.Quarter.{IsIeee, get_minimal_modbus_event_offset_lem}
use mathlib.Core.List.Perm
use revpi_modbus.Prelude.{
  refl, inr, inl, ℕ, ◌≡◌, ◌≢◌, true, Bool, Bool-cases, List, [], ◌∷◌, length, All, map,
}
use revpi_modbus.Prelude.Int.{is_neg}
use revpi_modbus.Config.{ModbusAction, no_error, max_register_size_per_action}
use revpi_modbus.Scheduler.{Timespec, SchedulerEvent}
use revpi_modbus.Scheduler.Start.{AllocatesAll, Started}
use revpi_modbus.External.{
  pure, ◌>>=◌, call, branch, modbus_set_timeout, clock_gettime, modbus_connect, pi_write,
  followed_by, Call, Env, History, IsDocumented,
}
use revpi_modbus.External.Reasoning.{Returns}
use revpi_modbus.Processor.{write_error_message, accepts}
use revpi_modbus.Processor.Scope.{Extends, start, after}
use revpi_modbus.Parser.Actions.{ActionIsParsed}
use revpi_modbus.Parser.Lists.{parsed_actions_start}
use revpi_modbus.Master.{MasterDevice, modbus_timeout, tcp_event, master_rounds}
use revpi_modbus.Master.Connection.{
  start_scheduler-eq, ran, start_queue, serve_queue, first_state, tcp_connection,
}
use revpi_modbus.Master.Events.{ClockIsNormal}
use revpi_modbus.Master.Rounds.{RunsOn}
use revpi_modbus.Master.Whole.{Connected, first_state_lem, All-Perm, All-unmap}
use revpi_modbus.Master.Scope.{Confined, Confined-from, Confined-bind}
use revpi_modbus.Master.Confined.{HasDevice, HasAction, AreServed}
use revpi_modbus.Master.Traces.{tcp_rounds-Confined}

module _ (env : Env) (P : Call → Type 0) (prop : (c : Call) → IsProp (P c)) (d : MasterDevice)
    (device : HasDevice P d) where
  pub Started-AreServed :
      (now : Timespec) (actions : List ModbusAction) (q : List SchedulerEvent)
      → Started now actions q
      → All (HasAction P) actions
      → AreServed P q
  Started-AreServed now actions q s serves = All-unmap (HasAction P) q (
      All-Perm (HasAction P) (λ a f g i c b. prop c (f c b) (g c b) i) actions
        (map (λ (e : SchedulerEvent). e.action) q) (Perm.symm s.perm) serves)

  -- The timeouts of a connection, and its device's cleared status byte.
  pub timeouts-Extends :
      (sec usec : ℕ) (h : History)
      → Extends P h (
          followed_by env (pi_write d.status_byte 1 (no_error ∷ [])) (
            followed_by env
              (modbus_set_timeout sec usec)
              (followed_by env (modbus_set_timeout sec usec) h)))
  timeouts-Extends sec usec h =
      after _ (device (pi_write d.status_byte 1 (no_error ∷ [])) (inl (refl, refl, refl))) (
        after _ (device (modbus_set_timeout sec usec) (inr tt))
          (after _ (device (modbus_set_timeout sec usec) (inr tt)) start))

  module _ (doc : IsDocumented env) (clock : ClockIsNormal env) (malloc : ℕ → Bool)
      (actions : List ModbusAction) (some_actions : actions ≢ [])
      (parsed : All ActionIsParsed actions) (accepted : All (λ a. accepts env a ≡ true) actions)
      (memory : AllocatesAll malloc 0 actions) (serves : All (HasAction P) actions) (n : ℕ) where
    module _ (double : Double) (ieee : IsIeee double) where
      serve_queue-Confined :
          (buf : List ℕ)
          → length buf ≡ max_register_size_per_action
          → (now : Timespec) (q : List SchedulerEvent) (h : History) → Started now actions q
          → Returns
              (Confined P (Connected env doc clock d) h)
              (serve_queue env malloc double d actions n buf q h)
      unfolding serve_queue write_error_message
      serve_queue-Confined buf size now q h s =
          let (v, (t, least, normal_t), brief) =
            first_state_lem env doc clock d actions some_actions parsed accepted buf size now q s in
          let (offset, paused, normal, quarter) =
            get_minimal_modbus_event_offset_lem double ieee q v.nonempty brief in
          let (sec, usec) = modbus_timeout t in
          let h₃ = followed_by env (pi_write d.status_byte 1 (no_error ∷ [])) (
            followed_by env (modbus_set_timeout sec usec)
              (followed_by env (modbus_set_timeout sec usec) h)) in
          Confined-from P (Connected env doc clock d) h h₃ _ (timeouts-Extends sec usec h) (
            rw (serve_queue, ◌>>=◌, least, paused)
              (Confined-bind P (RunsOn env) (Connected env doc clock d)
                (master_rounds env n (tcp_event env d offset) (first_state buf q))
                (λ r. pure (ran r)) h₃
                (tcp_rounds-Confined env doc clock d offset normal P device n (first_state buf q) h₃
                  v (Started-AreServed now actions q s serves))
                λ r h' runs. (inr (r, refl, runs), start)))

      pub tcp_connection-Confined :
          (buf : List ℕ) (h : History)
          → length buf ≡ max_register_size_per_action
          → Returns
              (Confined P (Connected env doc clock d) h)
              (tcp_connection env malloc double d actions n buf h)
      unfolding tcp_connection write_error_message start_queue
      tcp_connection-Confined buf h size =
          elim (Bool-cases (is_neg (env.answer h modbus_connect).ret)) [
            | inl failed ↦
                rw (◌>>=◌, call, failed, branch, Returns)
                  (
                    inl refl,
                    after _ (device _ (inr tt)) (
                        after _ (device _ (inl (refl, refl, refl)))
                          (after _ (device modbus_connect (inr tt)) start)),
                  )
            | inr connected ↦
                let h₁ = followed_by env modbus_connect h in
                let h₂ = followed_by env clock_gettime h₁ in
                let now = (env.answer h₁ clock_gettime).time in
                let (q, is_ready, s) =
                  parsed_actions_start malloc now (clock h₁) actions some_actions parsed memory in
                rw
                  (
                    tcp_connection,
                    ◌>>=◌,
                    call,
                    connected,
                    branch,
                    start_scheduler-eq env malloc actions h₁ some_actions,
                    is_ready,
                  )
                  (Confined-from P (Connected env doc clock d) h h₂
                    (serve_queue env malloc double d actions n buf q h₂)
                    (after _ (device clock_gettime (inr tt))
                      (after _ (device modbus_connect (inr tt)) start))
                    (serve_queue-Confined buf size now q h₂ s))
          ]
