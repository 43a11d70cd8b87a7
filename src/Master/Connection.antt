-- ===== src/Master/Connection.antt =====
-- One connection of the TCP master: the outer loop of `startTcpMasterThread`.

use revpi_modbus.Prelude.{ℕ, Bool, List, [], ◌∷◌, ◌≡◌, ◌≢◌, refl}
use revpi_modbus.Prelude.Int.{is_neg}
use revpi_modbus.Config.{ModbusAction, no_error, no_response_from_device, internal_error}
use revpi_modbus.Scheduler.{
  SchedulerEvent, init_scheduler, get_minimal_modbus_action_interval, InitResult, aborted, failed,
  ready,
}
use revpi_modbus.External.{
  History, done, followed_by, Env, M, Outcome, ◌>>=◌, pure, call, branch, modbus_connect,
  modbus_set_timeout, sleep_for, clock_gettime,
}
use revpi_modbus.Scheduler.Offset.{Double, get_minimal_modbus_event_offset}
use revpi_modbus.Processor.{write_error_message}
use revpi_modbus.Master.{
  MasterDevice, MasterState, Round, checked, defined, modbus_timeout, tcp_event, master_rounds,
}

-- How a connection ends: it is not made, the thread exits, or its loop ends.
pub data Connection : Type 0 where
  not_connected : Connection
  exited : Connection
  ran : Round → Connection

-- The state that its loop starts with. The buffer is that of the thread.
abbrev pub first_state : List ℕ → List SchedulerEvent → MasterState
first_state buf q = record {
  queue = q;
  earliest_next_trigger_time = record { tv_sec = 0; tv_nsec = 0 };
  buffer = buf;
  err_cnt = 0;
}

-- `initScheduler` reads the clock only where there is an action.
unfoldable pub start_scheduler : Env → (malloc : ℕ → Bool) → List ModbusAction → M InitResult
start_scheduler env malloc [] = pure (init_scheduler malloc (record { tv_sec = 0; tv_nsec = 0 }) [])
start_scheduler env malloc (a ∷ rest) =
    call env clock_gettime >>= λ now. pure (init_scheduler malloc now.time (a ∷ rest))

pub start_scheduler-eq :
    (env : Env) (malloc : ℕ → Bool) (actions : List ModbusAction) (h : History)
    → actions ≢ []
    → start_scheduler env malloc actions h
      ≡ done
          (init_scheduler malloc (env.answer h clock_gettime).time actions)
          (followed_by env clock_gettime h)
unfolding start_scheduler
start_scheduler-eq env malloc [] h some_actions = absurd (some_actions refl)
start_scheduler-eq env malloc (a ∷ rest) h some_actions = refl

-- `double` stands for the arithmetic of `double`, `malloc` says which allocation of
-- `initScheduler` succeeds, and the loop has `n` rounds.
module _ (env : Env) (malloc : ℕ → Bool) (double : Double) (d : MasterDevice)
    (actions : List ModbusAction) (n : ℕ) where
  -- The timeouts for a response and for a byte are the same.
  unfoldable pub serve_queue : List ℕ → List SchedulerEvent → M Connection
  serve_queue buf q = checked (get_minimal_modbus_action_interval q) >>= λ t.
      call env (modbus_set_timeout (modbus_timeout t).0 (modbus_timeout t).1) >>= λ r₁.
      call env (modbus_set_timeout (modbus_timeout t).0 (modbus_timeout t).1) >>= λ r₂.
      defined (get_minimal_modbus_event_offset double q) >>= λ offset.
      write_error_message env d.status_byte no_error >>= λ w.
      master_rounds env n (tcp_event env d offset) (first_state buf q) >>= λ r. pure (ran r)

  unfoldable pub start_queue : List ℕ → InitResult → M Connection
  start_queue buf aborted h = Outcome.aborted h
  start_queue buf (failed freed) h =
      (write_error_message env d.status_byte internal_error >>= λ w. pure exited) h
  start_queue buf (ready q) h = serve_queue buf q h

  unfoldable pub tcp_connection : List ℕ → M Connection
  tcp_connection buf = call env modbus_connect >>= λ c.
      branch (is_neg c.ret)
        (write_error_message env d.status_byte no_response_from_device >>= λ w.
          call env (sleep_for (record { tv_sec = 5; tv_nsec = 0 })) >>= λ s. pure not_connected)
        (start_scheduler env malloc actions >>= λ queue. start_queue buf queue)
