-- ===== src/Master/Balance.antt =====
-- What a whole thread of src/ModbusMasterThread.c makes and releases.
use revpi_modbus.Master.Times.{rtu_event_offset_lem}
use revpi_modbus.Slave.Resources.{Same, Owes, Owes-Same}
use revpi_modbus.Master.Prepared.{empty_buffer, empty_size}
use revpi_modbus.Slave.Released.{wait_for_device_lem, IsThere}
use revpi_modbus.Slave.Threads.{wait_for_device}
use revpi_modbus.Master.Threads.{
  start_rtu_queue, serve_rtu_queue, create_rtu_master, rtu_master_thread, open_rtu_master,
  tcp_connections, tcp_master_thread,
}
use revpi_modbus.Master.Reach.{tcp_connection-Confined, Started-AreServed, timeouts-Extends}
use revpi_modbus.Scheduler.Offset.{Double}
use revpi_modbus.Scheduler.Quarter.{IsIeee}
use revpi_modbus.Prelude.{
  zero, suc, ◌<◌, inr, inl, ℕ, ◌≡◌, ◌≢◌, true, Bool, Bool-cases, List, [], ◌∷◌, length, All,
}
use revpi_modbus.Prelude.Int.{is_neg}
use revpi_modbus.Config.{
  ModbusAction, no_error, max_register_size_per_action, no_response_from_device,
}
use revpi_modbus.Scheduler.{Timespec, SchedulerEvent}
use revpi_modbus.Scheduler.Start.{AllocatesAll, Started}
use revpi_modbus.External.{
  modbus_free, ◌>>=◌, call, branch, modbus_set_timeout, clock_gettime, modbus_connect, pi_write,
  followed_by, Env, History, IsDocumented,
}
use revpi_modbus.External.Reasoning.{Returns-bind, Returns}
use revpi_modbus.Processor.{write_error_message, accepts}
use revpi_modbus.Parser.Actions.{ActionIsParsed}
use revpi_modbus.Parser.Lists.{parsed_actions_start}
use revpi_modbus.Master.{rtu_event, rtu_event_offset, MasterDevice, modbus_timeout, master_rounds}
use revpi_modbus.Master.Connection.{start_scheduler-eq, first_state, tcp_connection}
use revpi_modbus.Master.Events.{ClockIsNormal}
use revpi_modbus.Master.Rounds.{RunsOn}
use revpi_modbus.Master.Whole.{Connected, first_state_lem}
use revpi_modbus.Master.Scope.{Extends-trans, Confined}
use revpi_modbus.Master.Confined.{HasAction}
use revpi_modbus.Master.Traces.{rtu_rounds-Confined}
use revpi_modbus.Master.Permitted.{All-of_holds}
use revpi_modbus.Master.Released.{
  Owes-refl, Owes-free, Owes-silent, IsSilent, IsSilent-prop, OfDevice-IsSilent, Serves-IsSilent,
  HasReleased, Owes-Confined, closed_lem, exit_with_lem, prepared_lem,
}

module _ (env : Env) (doc : IsDocumented env) (clock : ClockIsNormal env) (d : MasterDevice)
    (malloc : ℕ → Bool) (actions : List ModbusAction) (some_actions : actions ≢ [])
    (parsed : All ActionIsParsed actions) (accepted : All (λ a. accepts env a ≡ true) actions)
    (memory : AllocatesAll malloc 0 actions) (n : ℕ) where
  silent : All (HasAction IsSilent) actions
  silent = All-of_holds (HasAction IsSilent) actions λ a held. Serves-IsSilent a

  module _ (double : Double) (ieee : IsIeee double) where
    tcp_connections_lem :
        (k : ℕ) (buf : List ℕ) (h₀ h : History)
        → length buf ≡ max_register_size_per_action
        → Owes 0 1 h₀ h
        → Returns (HasReleased h₀) (tcp_connections env malloc double d actions n k buf h)
    unfolding tcp_connections
    tcp_connections_lem zero buf h₀ h size o = closed_lem env d h₀ h o
    tcp_connections_lem (suc k) buf h₀ h size o =
        Returns-bind (Confined IsSilent (Connected env doc clock d) h) (HasReleased h₀)
          (tcp_connection env malloc double d actions n buf) _ h
          (tcp_connection-Confined env IsSilent IsSilent-prop d (OfDevice-IsSilent d) doc clock
            malloc actions some_actions parsed accepted memory silent n double ieee buf h size)
          λ c h' ends.
            let o' = Owes-Confined 0 1 h₀ h h' o ends.1 in
            elim ends.0 [
              | inl none ↦ rw none (tcp_connections_lem k buf h₀ h' size o')
              | inr (r, is_ran, runs) ↦ elim runs [
                | inl (s, is_again, v) ↦ rw (is_ran, is_again) (closed_lem env d h₀ h' o')
                | inr (buf', is_reconnect, size') ↦
                    rw (is_ran, is_reconnect) (tcp_connections_lem k buf' h₀ h' size' o')
              ]
            ]

    -- The thread over TCP, whether or not its priority can be set and its context be made.
    pub tcp_master_thread-HasReleased :
        (k : ℕ) (h : History)
        → Returns (HasReleased h) (tcp_master_thread env malloc double d actions n k h)
    unfolding tcp_master_thread
    tcp_master_thread-HasReleased k h =
        prepared_lem env d (tcp_connections env malloc double d actions n k empty_buffer) h h
          (Owes-refl h) λ h' o. tcp_connections_lem k empty_buffer h h' empty_size o

  module _ (count : ℕ) (some_count : 0 < count) where
    serve_rtu_queue_lem :
        (now : Timespec) (q : List SchedulerEvent) (h₀ h : History)
        → Started now actions q
        → Owes 0 1 h₀ h
        → Returns (HasReleased h₀) (serve_rtu_queue env malloc d actions count n q h)
    unfolding serve_rtu_queue write_error_message
    serve_rtu_queue_lem now q h₀ h s o =
        let (v, (t, least, normal), brief) =
          first_state_lem env doc clock d actions some_actions parsed accepted empty_buffer
            empty_size now q s in
        let (sec, usec) = modbus_timeout t in
        let pause = rtu_event_offset t count in
        let h₃ = followed_by env (pi_write d.status_byte 1 (no_error ∷ [])) (
          followed_by env (modbus_set_timeout sec usec)
            (followed_by env (modbus_set_timeout sec usec) h)) in
        rw (serve_rtu_queue, ◌>>=◌, least)
          (Returns-bind (Confined IsSilent (RunsOn env) h₃) (HasReleased h₀)
            (master_rounds env n (rtu_event env d pause) (first_state empty_buffer q)) _ h₃
            (rtu_rounds-Confined env doc clock d pause
              (rtu_event_offset_lem t count normal some_count).0 IsSilent (OfDevice-IsSilent d) n
              (first_state empty_buffer q) h₃ v
              (Started-AreServed env IsSilent IsSilent-prop d (OfDevice-IsSilent d) now actions q s
                silent))
            λ r h' runs. closed_lem env d h₀ h' (
              Owes-Confined 0 1 h₀ h h' o (
                Extends-trans
                  (timeouts-Extends env IsSilent IsSilent-prop d (OfDevice-IsSilent d) sec usec h)
                  runs.1)))

    open_rtu_master_lem :
        (h₀ h : History)
        → Owes 0 1 h₀ h
        → Returns (HasReleased h₀) (open_rtu_master env malloc d actions count n h)
    unfolding open_rtu_master start_rtu_queue
    open_rtu_master_lem h₀ h o =
        let h₁ = followed_by env modbus_connect h in
        let h₂ = followed_by env clock_gettime h₁ in
        elim (Bool-cases (is_neg (env.answer h modbus_connect).ret)) [
          | inl failed ↦
              rw (open_rtu_master, ◌>>=◌, call, failed, branch)
                (exit_with_lem env d no_response_from_device h₀ (followed_by env modbus_free h₁) (
                  Owes-free env h₀ h₁ (
                    Owes-silent env h₀ h 0 1 modbus_connect
                      (OfDevice-IsSilent d modbus_connect (inr tt)) o)))
          | inr connected ↦
              let now = (env.answer h₁ clock_gettime).time in
              let (q, is_ready, s) =
                parsed_actions_start malloc now (clock h₁) actions some_actions parsed memory in
              rw
                (
                  open_rtu_master,
                  ◌>>=◌,
                  call,
                  connected,
                  branch,
                  start_scheduler-eq env malloc actions h₁ some_actions,
                  is_ready,
                )
                (serve_rtu_queue_lem now q h₀ h₂ s (
                  Owes-silent env h₀ h₁ 0 1 clock_gettime
                    (OfDevice-IsSilent d clock_gettime (inr tt))
                    (Owes-silent env h₀ h 0 1 modbus_connect
                      (OfDevice-IsSilent d modbus_connect (inr tt)) o)))
        ]

    -- The thread over RTU, where its device is there at the try `k` of more.
    pub rtu_master_thread-HasReleased :
        (k w : ℕ) (h : History)
        → k < w
        → IsThere env k h
        → Returns (HasReleased h) (rtu_master_thread env malloc d actions count n w h)
    unfolding rtu_master_thread create_rtu_master
    rtu_master_thread-HasReleased k w h lt there =
        Returns-bind (λ found h'. (found ≡ true) × Same h h') (HasReleased h)
          (wait_for_device env w) _ h (wait_for_device_lem env k w h lt there)
          λ found h' r.
            rw (r.0, branch)
              (prepared_lem env d (open_rtu_master env malloc d actions count n) h h'
                (Owes-Same 0 0 h h h' (Owes-refl h) r.1) λ h'' o. open_rtu_master_lem h h'' o)
