-- ===== src/Master/Failure.antt =====
-- `startRtuMasterThread` where `initScheduler` fails.
use revpi_modbus.Prelude.{
  [], ◌≢◌, refl, ◌+◌, ◌≡◌, ◌++◌, length, ℕ, false, Bool, List, ◌∷◌, All, arith,
}
use revpi_modbus.Prelude.Int.{is_neg, is_zero}
use revpi_modbus.Config.{ModbusAction}
use revpi_modbus.Scheduler.Start.{AllocatesAll, Interval, init_scheduler_failed}
use revpi_modbus.External.{
  Env, History, call, branch, ◌>>=◌, followed_by, set_priority, modbus_new, modbus_connect,
  modbus_set_error_recovery, clock_gettime,
}
use revpi_modbus.External.Reasoning.{Returns}
use revpi_modbus.Processor.{write_error_message}
use revpi_modbus.Slave.Threads.{ThreadState, exited}
use revpi_modbus.Slave.Resources.{total, context_made, context_freed}
use revpi_modbus.Master.{MasterDevice}
use revpi_modbus.Master.Connection.{start_scheduler-eq}
use revpi_modbus.Master.Events.{ClockIsNormal}
use revpi_modbus.Master.Threads.{close_master, start_rtu_queue, open_rtu_master, create_rtu_master}

-- The thread exits after it made one context and released two.
abbrev pub ReleasesTwice : History → ThreadState → History → Type 0
ReleasesTwice h s h' =
    (s ≡ exited)
    × (total context_made h' ≡ total context_made h + 1)
    × (total context_freed h' ≡ total context_freed h + 2)

some_action :
    (pre : List ModbusAction) (a : ModbusAction) (post : List ModbusAction) → pre ++ (a ∷ post) ≢ []
some_action [] a post e = cc
some_action (x ∷ pre) a post e = cc

module _ (env : Env) (clock : ClockIsNormal env) (d : MasterDevice) (malloc : ℕ → Bool)
    (pre : List ModbusAction) (a : ModbusAction) (post : List ModbusAction) (ok : All Interval pre)
    (memory : AllocatesAll malloc 0 pre) (no_memory : malloc (length pre) ≡ false)
    (count n : ℕ) where
  -- The history when the context is made, and set up.
  abbrev pub set_up : History → History
  set_up h =
      followed_by env modbus_set_error_recovery
        (followed_by env modbus_new (followed_by env set_priority h))

  open_rtu_master_fails :
      (h₀ h : History)
      → is_neg (env.answer h modbus_connect).ret ≡ false
      → total context_made h ≡ total context_made h₀ + 1
      → total context_freed h ≡ total context_freed h₀
      → Returns (ReleasesTwice h₀) (open_rtu_master env malloc d (pre ++ (a ∷ post)) count n h)
  unfolding open_rtu_master start_rtu_queue close_master write_error_message
  open_rtu_master_fails h₀ h connected made freed =
      let h₁ = followed_by env modbus_connect h in
      let now = (env.answer h₁ clock_gettime).time in
      let (events, failed, perm) =
        init_scheduler_failed malloc now (clock h₁) pre a post ok memory no_memory in
      rw
        (
          open_rtu_master,
          ◌>>=◌,
          call,
          connected,
          branch,
          start_scheduler-eq env malloc (pre ++ (a ∷ post)) h₁ (some_action pre a post),
          failed,
        )
        (refl, omega (arith, made), omega (arith, freed))

  -- A master over RTU gets its priority, its context and its connection, and then, with a normalised
  -- clock, the allocation for one of its actions fails, after those for the actions before it, whose
  -- intervals are not 0. Then the thread exits, and it releases the one context that it made twice:
  -- before it exits, and in the cleanup handler that its exit runs.
  pub create_rtu_master_fails :
      (h : History)
      → is_neg (env.answer h set_priority).ret ≡ false
      → is_zero (env.answer (followed_by env set_priority h) modbus_new).ret ≡ false
      → is_neg (env.answer (set_up h) modbus_connect).ret ≡ false
      → Returns (ReleasesTwice h) (create_rtu_master env malloc d (pre ++ (a ∷ post)) count n h)
  unfolding create_rtu_master
  create_rtu_master_fails h priority made connected =
      rw (create_rtu_master, ◌>>=◌, call, priority, made, branch)
        (open_rtu_master_fails h (set_up h) connected (rw made (omega arith)) (omega arith))
