-- ===== src/Master/Permitted.antt =====
-- The calls of a whole thread of src/ModbusMasterThread.c, against a set that contains what it may call.
use revpi_modbus.Master.Times.{rtu_event_offset_lem}
use revpi_modbus.Slave.Resources.{Same}
use revpi_modbus.Master.Prepared.{
  empty_buffer, empty_size, HasEnded, close_master-Confined, exit_with-Confined,
  wait_for_device-Confined, prepared-Confined,
}
use revpi_modbus.Slave.Released.{wait_for_device_lem, IsThere}
use revpi_modbus.Slave.Threads.{ThreadState, cancelled, wait_for_device}
use revpi_modbus.Master.Threads.{
  start_rtu_queue, serve_rtu_queue, create_rtu_master, rtu_master_thread, open_rtu_master,
  tcp_connections, tcp_master_thread,
}
use revpi_modbus.Master.Reach.{tcp_connection-Confined, Started-AreServed, timeouts-Extends}
use revpi_modbus.Scheduler.Offset.{Double}
use revpi_modbus.Scheduler.Quarter.{IsIeee}
use revpi_modbus.Prelude.{
  zero, suc, ◌<◌, refl, inr, inl, ℕ, ◌≡◌, ◌≢◌, true, Bool, Bool-cases, List, [], ◌∷◌, length, All,
  Holds,
}
use revpi_modbus.Prelude.Int.{is_neg}
use revpi_modbus.Config.{
  ModbusAction, no_error, max_register_size_per_action, no_response_from_device,
}
use revpi_modbus.Scheduler.{Timespec, SchedulerEvent}
use revpi_modbus.Scheduler.Start.{AllocatesAll, Started}
use revpi_modbus.External.{
  modbus_free, ◌>>=◌, call, branch, modbus_set_timeout, clock_gettime, modbus_connect, pi_write,
  followed_by, Call, Env, History, IsDocumented,
}
use revpi_modbus.External.Reasoning.{Returns-both, Returns-mono, Returns}
use revpi_modbus.Processor.{write_error_message, accepts}
use revpi_modbus.Processor.Scope.{Extends, start, after}
use revpi_modbus.Parser.Actions.{ActionIsParsed}
use revpi_modbus.Parser.Lists.{parsed_actions_start}
use revpi_modbus.Master.{rtu_event, rtu_event_offset, MasterDevice, modbus_timeout, master_rounds}
use revpi_modbus.Master.Connection.{start_scheduler-eq, first_state, tcp_connection}
use revpi_modbus.Master.Events.{ClockIsNormal}
use revpi_modbus.Master.Rounds.{RunsOn}
use revpi_modbus.Master.Whole.{Connected, first_state_lem}
use revpi_modbus.Master.Scope.{IsContext, Confined, Confined-from, Confined-bind, OfMaster}
use revpi_modbus.Master.Confined.{HasDevice, HasAction}
use revpi_modbus.Master.Traces.{rtu_rounds-Confined}

-- Every element that is held has a property.
pub All-of_holds :
    {A : Type 0} (Q : A → Type 0) (xs : List A) → ((a : A) → Holds a xs → Q a) → All Q xs
All-of_holds Q [] ok = tt
All-of_holds Q (x ∷ xs) ok = (ok x (inl refl), All-of_holds Q xs λ a m. ok a (inr m))

module _ (env : Env) (P : Call → Type 0) (prop : (c : Call) → IsProp (P c)) (d : MasterDevice)
    (device : HasDevice P d) (context : (c : Call) → IsContext c → P c) (doc : IsDocumented env)
    (clock : ClockIsNormal env) (malloc : ℕ → Bool) (actions : List ModbusAction)
    (some_actions : actions ≢ []) (parsed : All ActionIsParsed actions)
    (accepted : All (λ a. accepts env a ≡ true) actions) (memory : AllocatesAll malloc 0 actions)
    (serves : All (HasAction P) actions) (n : ℕ) where
  module _ (double : Double) (ieee : IsIeee double) where
    -- Only a cancellation ends the connections.
    abbrev IsCancelled : ThreadState → Type 0
    IsCancelled s = s ≡ cancelled

    pub tcp_connections-Confined :
        (k : ℕ) (buf : List ℕ) (h : History)
        → length buf ≡ max_register_size_per_action
        → Returns (Confined P IsCancelled h) (tcp_connections env malloc double d actions n k buf h)
    unfolding tcp_connections
    tcp_connections-Confined zero buf h size =
        close_master-Confined env P d device context IsCancelled cancelled h refl
    tcp_connections-Confined (suc k) buf h size =
        Confined-bind P (Connected env doc clock d) IsCancelled
          (tcp_connection env malloc double d actions n buf) _ h
          (tcp_connection-Confined env P prop d device doc clock malloc actions some_actions parsed
            accepted memory serves n double ieee buf h size)
          λ c h' ends. elim ends [
            | inl none ↦ rw none (tcp_connections-Confined k buf h' size)
            | inr (r, is_ran, runs) ↦ elim runs [
              | inl (s, is_again, v) ↦
                  rw (is_ran, is_again)
                    (close_master-Confined env P d device context IsCancelled cancelled h' refl)
              | inr (buf', is_reconnect, size') ↦
                  rw (is_ran, is_reconnect) (tcp_connections-Confined k buf' h' size')
            ]
          ]

    pub tcp_master_thread-Confined :
        (k : ℕ) (h : History)
        → Returns (Confined P HasEnded h) (tcp_master_thread env malloc double d actions n k h)
    unfolding tcp_master_thread
    tcp_master_thread-Confined k h =
        prepared-Confined env P d device context
          (tcp_connections env malloc double d actions n k empty_buffer) h
          λ h'.
            Returns-mono (Confined P IsCancelled h') (Confined P HasEnded h')
              (tcp_connections env malloc double d actions n k empty_buffer h')
              (tcp_connections-Confined k empty_buffer h' empty_size) λ s h'' c. ((λ e. cc), c.1)

  module _ (count : ℕ) (some_count : 0 < count) where
    serve_rtu_queue-Confined :
        (now : Timespec) (q : List SchedulerEvent) (h : History)
        → Started now actions q
        → Returns (Confined P HasEnded h) (serve_rtu_queue env malloc d actions count n q h)
    unfolding serve_rtu_queue write_error_message
    serve_rtu_queue-Confined now q h s =
        let (v, (t, least, normal), brief) =
          first_state_lem env doc clock d actions some_actions parsed accepted empty_buffer
            empty_size now q s in
        let (sec, usec) = modbus_timeout t in
        let pause = rtu_event_offset t count in
        let h₃ = followed_by env (pi_write d.status_byte 1 (no_error ∷ [])) (
          followed_by env (modbus_set_timeout sec usec)
            (followed_by env (modbus_set_timeout sec usec) h)) in
        Confined-from P HasEnded h h₃ _ (timeouts-Extends env P prop d device sec usec h) (
          rw (serve_rtu_queue, ◌>>=◌, least)
            (Confined-bind P (RunsOn env) HasEnded
              (master_rounds env n (rtu_event env d pause) (first_state empty_buffer q)) _ h₃
              (rtu_rounds-Confined env doc clock d pause
                (rtu_event_offset_lem t count normal some_count).0 P device n
                (first_state empty_buffer q) h₃ v
                (Started-AreServed env P prop d device now actions q s serves))
              λ r h' runs.
                close_master-Confined env P d device context HasEnded cancelled h' (λ e. cc)))

    open_rtu_master-Confined :
        (h : History)
        → Returns (Confined P HasEnded h) (open_rtu_master env malloc d actions count n h)
    unfolding open_rtu_master start_rtu_queue
    open_rtu_master-Confined h =
        let h₁ = followed_by env modbus_connect h in
        let h₂ = followed_by env clock_gettime h₁ in
        let own₁ : Extends P h h₁ = after _ (device modbus_connect (inr tt)) start in
        elim (Bool-cases (is_neg (env.answer h modbus_connect).ret)) [
          | inl failed ↦
              rw (open_rtu_master, ◌>>=◌, call, failed, branch)
                (exit_with-Confined env P d device context no_response_from_device h
                  (followed_by env modbus_free h₁) (after _ (context modbus_free (inr refl)) own₁))
          | inr connected ↦
              let now = (env.answer h₁ clock_gettime).time in
              let (q, is_ready, s) =
                parsed_actions_start malloc now (clock h₁) actions some_actions parsed memory in
              rw
                (
                  open_rtu_master,
                  ◌>>=◌,
                  call,
                  connected,
                  branch,
                  start_scheduler-eq env malloc actions h₁ some_actions,
                  is_ready,
                )
                (Confined-from P HasEnded h h₂ (serve_rtu_queue env malloc d actions count n q h₂)
                  (after _ (device clock_gettime (inr tt)) own₁)
                  (serve_rtu_queue-Confined now q h₂ s))
        ]

    create_rtu_master-Confined :
        (h : History)
        → Returns (Confined P HasEnded h) (create_rtu_master env malloc d actions count n h)
    unfolding create_rtu_master
    create_rtu_master-Confined h =
        prepared-Confined env P d device context (open_rtu_master env malloc d actions count n) h
          open_rtu_master-Confined

    pub rtu_master_thread-Confined :
        (k w : ℕ) (h : History)
        → k < w
        → IsThere env k h
        → Returns (Confined P HasEnded h) (rtu_master_thread env malloc d actions count n w h)
    unfolding rtu_master_thread
    rtu_master_thread-Confined k w h lt there =
        Confined-bind P (λ found. found ≡ true) HasEnded (wait_for_device env w) _ h
          (Returns-mono
            (λ found h'. ((found ≡ true) × Same h h') × Confined P (λ there. Unit {0}) h found h')
            (Confined P (λ found. found ≡ true) h) (wait_for_device env w h)
            (Returns-both (λ found h'. (found ≡ true) × Same h h')
              (Confined P (λ there. Unit {0}) h) (wait_for_device env w h)
              (wait_for_device_lem env k w h lt there)
              (wait_for_device-Confined env P d device context w h))
            λ found h' r. (r.0.0, r.1.1))
          λ found h' is. rw (is, branch) (create_rtu_master-Confined h')

pub OfMaster-HasActions :
    (d : MasterDevice) (actions : List ModbusAction) → All (HasAction (OfMaster d actions)) actions
OfMaster-HasActions d actions =
    All-of_holds (HasAction (OfMaster d actions)) actions
      λ a held c serves. ∣ inr (inr (a, held, serves)) ∣₁
