-- ===== src/Master.antt =====
-- src/ModbusMasterThread.c: the times that a master computes for its connection, and the rounds of
-- its loops over TCP and RTU.

pub mod Times
pub mod Events
pub mod Rounds
pub mod Connection
pub mod Whole
pub mod Threads
pub mod Runs
pub mod Failure
pub mod Scope
pub mod Confined
pub mod Traces
pub mod Reach
pub mod Prepared
pub mod Permitted
pub mod Released
pub mod Balance
use revpi_modbus.Prelude.{
  none, some, Option, ℕ, zero, suc, ◌+◌, ◌*◌, ◌/◌, ◌%◌, ◌==◌, ◌&&◌, if◌then◌else◌, ltb, List, [],
  ◌∷◌,
}
use revpi_modbus.Prelude.Int.{ℤ, is_neg}
use revpi_modbus.Scheduler.{
  aborted, Timespec, nanoseconds_per_second, SchedulerEvent, ModbusEvent, get_next_event,
  timespec_add, next, no_entries,
}
use revpi_modbus.External.{
  Env, M, Outcome, ◌>>=◌, pure, call, branch, overrun, sleep_until, modbus_set_slave, clock_gettime,
  modbus_close,
}
use revpi_modbus.Processor.{
  process_modbus_action, reset_modbus_action_status, reset_modbus_master_status,
}

-- The timeout is half of the shortest interval, in seconds and microseconds.
unfoldable pub modbus_timeout : Timespec → ℕ × ℕ
modbus_timeout t =
    let nsec = if t.tv_sec % 2 == 0 then t.tv_nsec else t.tv_nsec + nanoseconds_per_second in
    let sec = t.tv_sec / 2 in
    let usec = nsec / 1000 / 2 in if sec == 0 && usec == 0 then (0, 1) else (sec, usec)

-- The time between two telegrams over RTU: a quarter of the shortest interval, divided by the number
-- of actions.
unfoldable pub rtu_event_offset : Timespec → ℕ → Timespec
rtu_event_offset t count =
    let offset = (t.tv_sec * nanoseconds_per_second + t.tv_nsec) / count / 4 in
    record { tv_sec = offset / nanoseconds_per_second; tv_nsec = offset % nanoseconds_per_second }

-- The offsets of a device's status byte and of the byte that resets it.
pub record MasterDevice : Type 0 where
  pub status_byte : ℕ
  pub status_reset_byte : ℕ

-- The variables that live from one round to the next. RTU does not count errors.
pub record MasterState : Type 0 where
  pub queue : List SchedulerEvent
  pub earliest_next_trigger_time : Timespec
  pub buffer : List ℕ
  pub err_cnt : ℕ

-- How a round ends: with another one, or with a new connection, which goes on with the buffer.
pub data Round : Type 0 where
  again : MasterState → Round
  reconnect : List ℕ → Round

-- A failed assertion of `timespec_add`.
abbrev pub checked : {A : Type 0} → Option A → M A
checked none h = Outcome.aborted h
checked (some a) h = pure a h

-- A conversion that C leaves undefined counts as an access outside a buffer.
abbrev pub defined : {A : Type 0} → Option A → M A
defined none h = overrun h
defined (some a) h = pure a h

-- After how many failures in a row the TCP master connects anew.
abbrev pub max_errors : ℕ
max_errors = 100

module _ (env : Env) where
  -- An event is processed at its time, but not before the time from which the bus is free: the
  -- result, the time from which it is free again, and the buffer.
  unfoldable pub process_event :
      ModbusEvent → (offset : Timespec) → MasterState → M (ℤ × Timespec × List ℕ)
  process_event ev offset s = call env (sleep_until ev.trigger_time) >>= λ e₁.
      call env (sleep_until s.earliest_next_trigger_time) >>= λ e₂.
      call env (modbus_set_slave ev.action.slave_address) >>= λ e₃.
      process_modbus_action env ev.action s.buffer >>= λ r. call env clock_gettime >>= λ current.
      checked (timespec_add current.time offset) >>= λ t. pure (r.0, t, r.1)

  -- What TCP does with the result.
  unfoldable pub tcp_result : MasterState → ℤ × Timespec × List ℕ → M Round
  tcp_result s (ret, t, buf) =
      branch (is_neg ret)
        (branch (ltb max_errors (s.err_cnt + 1))
          (call env modbus_close >>= λ c. pure (reconnect buf))
          (pure (
            again (record s {
              earliest_next_trigger_time = t;
              buffer = buf;
              err_cnt = s.err_cnt + 1;
            }))))
        (pure (again (record s { earliest_next_trigger_time = t; buffer = buf; err_cnt = 0 })))

  unfoldable pub tcp_event :
      MasterDevice → (offset : Timespec) → ModbusEvent → MasterState → M Round
  tcp_event d offset ev s =
      reset_modbus_action_status env ev.action.reset_status_byte_offset
        ev.action.reset_status_bit_offset ev.action.status_byte_offset
      >>= λ a. reset_modbus_master_status env d.status_reset_byte d.status_byte >>= λ m.
          process_event ev offset s >>= λ r. tcp_result s r

  -- RTU looks at the reset bits of all actions.
  unfoldable pub reset_all : List SchedulerEvent → M (Unit {0})
  reset_all [] = pure tt
  reset_all (e ∷ rest) =
      reset_modbus_action_status env e.action.reset_status_byte_offset
        e.action.reset_status_bit_offset e.action.status_byte_offset
      >>= λ a. reset_all rest

  unfoldable pub rtu_event :
      MasterDevice → (offset : Timespec) → ModbusEvent → MasterState → M Round
  rtu_event d offset ev s = reset_all s.queue >>= λ a.
      reset_modbus_master_status env d.status_reset_byte d.status_byte >>= λ m.
      process_event ev offset s >>= λ r.
      pure (again (record s { earliest_next_trigger_time = r.1; buffer = r.2 }))

  -- One round: the next event. With an empty queue, the event would be read uninitialised.
  unfoldable pub master_round : (ModbusEvent → MasterState → M Round) → MasterState → M Round
  master_round process s h = elim (get_next_event s.queue) [
    | aborted ↦ Outcome.aborted h
    | no_entries ↦ overrun h
    | next ev q ↦ process ev (record s { queue = q }) h
  ]

  -- Up to `n` rounds of a loop.
  unfoldable pub master_rounds : ℕ → (ModbusEvent → MasterState → M Round) → MasterState → M Round
  master_rounds zero process s = pure (again s)
  master_rounds (suc n) process s = master_round process s >>= λ r. elim r [
    | again s' ↦ master_rounds n process s'
    | reconnect buf ↦ pure (reconnect buf)
  ]
