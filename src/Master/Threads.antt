-- ===== src/Master/Threads.antt =====
-- `startTcpMasterThread` and `startRtuMasterThread` in src/ModbusMasterThread.c, from their start to
-- their end. A thread that runs is cancelled from outside, here between two rounds.
use revpi_modbus.Scheduler.Offset.{Double}
use revpi_modbus.Prelude.{ℕ, zero, suc, Bool, List, replicate}
use revpi_modbus.Prelude.Int.{is_neg, is_zero}
use revpi_modbus.Config.{
  ModbusAction, no_error, no_device, no_response_from_device, internal_error,
  max_register_size_per_action,
}
use revpi_modbus.Scheduler.{
  SchedulerEvent, get_minimal_modbus_action_interval, InitResult, aborted, failed, ready,
}
use revpi_modbus.External.{
  Env, M, Outcome, ◌>>=◌, ◌>>◌, pure, call, branch, modbus_connect, modbus_set_timeout,
  set_priority, modbus_new, modbus_free, modbus_close, modbus_set_error_recovery,
}
use revpi_modbus.Processor.{write_error_message}
use revpi_modbus.Slave.Threads.{ThreadState, waiting, cancelled, wait_for_device}
use revpi_modbus.Master.{
  MasterDevice, again, reconnect, checked, modbus_timeout, rtu_event_offset, rtu_event,
  master_rounds,
}
use revpi_modbus.Master.Connection.{
  start_scheduler, tcp_connection, first_state, not_connected, exited, ran,
}

module _ (env : Env) where
  -- The cleanup handler of both threads.
  unfoldable pub close_master : M (Unit {0})
  close_master = call env modbus_close >> (call env modbus_free >> pure tt)

  -- A thread that ends by itself, with an error in its device's status byte.
  unfoldable pub exit_with : (status_byte error : ℕ) → M ThreadState
  exit_with status_byte error = write_error_message env status_byte error >> pure ThreadState.exited

-- The parameters are those of a connection.
module _ (env : Env) (malloc : ℕ → Bool) (double : Double) (d : MasterDevice)
    (actions : List ModbusAction) (n : ℕ) where
  -- Up to `k` connections, each with the buffer that the one before left.
  unfoldable pub tcp_connections : ℕ → List ℕ → M ThreadState
  tcp_connections zero buf = close_master env >> pure cancelled
  tcp_connections (suc k) buf = tcp_connection env malloc double d actions n buf >>= λ c. elim c [
    | not_connected ↦ tcp_connections k buf
    | exited ↦ close_master env >> pure ThreadState.exited
    | ran r ↦ elim r [
      | again s ↦ close_master env >> pure cancelled
      | reconnect buf' ↦ tcp_connections k buf'
    ]
  ]

  unfoldable pub tcp_master_thread : ℕ → M ThreadState
  tcp_master_thread k = call env set_priority >>= λ p.
      branch (is_neg p.ret) (exit_with env d.status_byte internal_error) (
        call env modbus_new >>= λ x.
        branch (is_zero x.ret) (exit_with env d.status_byte no_device) (
          call env modbus_set_error_recovery
          >> tcp_connections k (replicate max_register_size_per_action 0)))

-- `count` is the number of actions that the configuration has beside them.
module _ (env : Env) (malloc : ℕ → Bool) (d : MasterDevice) (actions : List ModbusAction)
    (count n : ℕ) where
  -- The shortest interval is looked for twice, with the same result.
  unfoldable pub serve_rtu_queue : List SchedulerEvent → M ThreadState
  serve_rtu_queue q = checked (get_minimal_modbus_action_interval q) >>= λ t.
      call env (modbus_set_timeout (modbus_timeout t).0 (modbus_timeout t).1) >>= λ r₁.
      call env (modbus_set_timeout (modbus_timeout t).0 (modbus_timeout t).1) >>= λ r₂.
      write_error_message env d.status_byte no_error >>= λ w.
      master_rounds env n (rtu_event env d (rtu_event_offset t count))
        (first_state (replicate max_register_size_per_action 0) q)
      >>= λ r. (close_master env >> pure cancelled)

  -- Where `initScheduler` fails, the context is released twice.
  unfoldable pub start_rtu_queue : InitResult → M ThreadState
  start_rtu_queue aborted h = Outcome.aborted h
  start_rtu_queue (failed freed) h =
      (close_master env
          >> (write_error_message env d.status_byte internal_error
              >> (close_master env >> pure ThreadState.exited)))
        h
  start_rtu_queue (ready q) h = serve_rtu_queue q h

  unfoldable pub open_rtu_master : M ThreadState
  open_rtu_master = call env modbus_connect >>= λ c.
      branch (is_neg c.ret)
        (call env modbus_free >> exit_with env d.status_byte no_response_from_device)
        (start_scheduler env malloc actions >>= λ queue. start_rtu_queue queue)

  unfoldable pub create_rtu_master : M ThreadState
  create_rtu_master = call env set_priority >>= λ p.
      branch (is_neg p.ret) (exit_with env d.status_byte internal_error) (
        call env modbus_new >>= λ x.
        branch (is_zero x.ret) (exit_with env d.status_byte no_device)
          (call env modbus_set_error_recovery >> open_rtu_master))

  -- The whole thread, with up to `w` tries for the device.
  unfoldable pub rtu_master_thread : ℕ → M ThreadState
  rtu_master_thread w =
      wait_for_device env w >>= λ there. branch there create_rtu_master (pure waiting)
