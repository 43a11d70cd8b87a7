-- ===== src/Program.antt =====
-- src/piModbusSlave.c and src/piModbusMaster.c: both main programs, which start a thread for each
-- device of the configuration, wait for a reset of the process image, and start again.
use revpi_modbus.Prelude.{
  ℕ, zero, suc, ◌==◌, Bool, true, false, Option, none, some, List, [], ◌∷◌, length, if◌then◌else◌,
}
use revpi_modbus.Prelude.Int.{ℤ, pos, negsuc, is_zero}
use revpi_modbus.Config.{SlaveConfiguration, MasterConfiguration, ModbusAction}
use revpi_modbus.External.{
  Handle, null, thread, Reply, Env, M, ◌>>=◌, ◌>>◌, pure, call, branch, overrun, pthread_create,
  pthread_cancel, wait_for_event, alloc_threads, free_threads, free_action, free_entry, free_buffer,
}
use revpi_modbus.Parser.{Libraries, Text}
use revpi_modbus.Device.File.{read_config_file, c_string, free_config_buffer}
use revpi_modbus.Device.{Platform, parse_modbus_slaves_config_data, parse_modbus_master_config_data}
pub mod Threads
pub mod Passes
pub mod Slaves
pub mod System

-- What stands in `pThreads[i]` after `pthread_create` is called for it. Where it fails, this is
-- `left`, of its answer.
abbrev pub put : (left : Reply → Handle) → ℕ → Reply → Handle
put left i r = if is_zero r.ret then thread i else left r

-- How a pass of the outer loop ends: it still waits for a reset, it is over, or the program ends for
-- want of memory.
pub data Pass : Type 0 where
  still_waiting : Pass
  over : Pass
  out_of_memory : Pass

-- The file's buffer, and the configurations that are read from it.
unfoldable pub get_slave_device_config_list :
    Env → (lib : Libraries) → Platform lib → M (Option (List ℕ) × List SlaveConfiguration)
get_slave_device_config_list env lib platform = read_config_file env >>= λ file. elim file [
  | none ↦ pure (none, [])
  | some buf ↦ c_string buf >>= λ text.
      parse_modbus_slaves_config_data lib platform text >>= λ r. pure (some buf, r.1)
]

unfoldable pub get_master_device_config_list :
    Env → (lib : Libraries) → Platform lib → M (Option (List ℕ) × List MasterConfiguration)
get_master_device_config_list env lib platform = read_config_file env >>= λ file. elim file [
  | none ↦ pure (none, [])
  | some buf ↦ c_string buf >>= λ text.
      parse_modbus_master_config_data lib platform env text >>= λ r. pure (some buf, r.1)
]

-- `reset` stands for `KB_EVENT_RESET`.
module _ (env : Env) (reset : ℤ → Bool) where
  -- A thread for each configuration, from the place `i` on. Which of the two start routines it has
  -- is seen from the configuration. Where a thread cannot be started, `left` is in its place of the
  -- array.
  unfoldable pub start_threads :
      {A : Type 0} → (left : Reply → Handle) → ℕ → List A → M (List Handle)
  start_threads left i [] = pure []
  start_threads left i (c ∷ rest) = call env (pthread_create i) >>= λ r.
      start_threads left (suc i) rest >>= λ handles. pure (put left i r ∷ handles)

  -- Up to `n` events until one is a reset.
  unfoldable pub wait_for_reset : ℕ → M Bool
  wait_for_reset zero = pure false
  wait_for_reset (suc n) =
      call env wait_for_event >>= λ e. branch (reset e.ret) (pure true) (wait_for_reset n)

  -- The slave cancels whatever stands in the array, also a 0, which is no thread.
  unfoldable pub cancel_slaves : List Handle → M (Unit {0})
  cancel_slaves [] = pure tt
  cancel_slaves (x ∷ rest) = call env (pthread_cancel x) >> cancel_slaves rest

  -- The master leaves out a 0.
  unfoldable pub cancel_masters : List Handle → M (Unit {0})
  cancel_masters [] = pure tt
  cancel_masters (thread i ∷ rest) = call env (pthread_cancel (thread i)) >> cancel_masters rest
  cancel_masters (null ∷ rest) = cancel_masters rest

  unfoldable pub free_slaves : List SlaveConfiguration → M (Unit {0})
  free_slaves [] = pure tt
  free_slaves (c ∷ rest) = call env free_entry >> free_slaves rest

  unfoldable pub free_actions : List ModbusAction → M (Unit {0})
  free_actions [] = pure tt
  free_actions (a ∷ rest) = call env free_action >> free_actions rest

  unfoldable pub free_modbus_master_config_data : List MasterConfiguration → M (Unit {0})
  free_modbus_master_config_data [] = pure tt
  free_modbus_master_config_data (c ∷ rest) =
      free_actions c.action_list >> (call env free_entry >> free_modbus_master_config_data rest)

  -- A pass with the configurations of a file, whose buffer it frees.
  module _ (file : Option (List ℕ)) where
    -- After the threads are started, or there are none.
    unfoldable pub end_of_pass : ℕ → M (Unit {0}) → M Pass
    end_of_pass w stop = wait_for_reset w >>= λ came.
        branch came (stop >> (free_config_buffer env file >> pure over)) (pure still_waiting)

    unfoldable pub slave_pass : ℕ → List SlaveConfiguration → M Pass
    slave_pass w [] = end_of_pass w (pure tt)
    slave_pass w (c ∷ rest) = call env (alloc_threads (length (c ∷ rest))) >>= λ p.
        branch (is_zero p.ret) (pure out_of_memory) (
          start_threads (λ r. null) 0 (c ∷ rest) >>= λ handles.
          end_of_pass w
            (cancel_slaves handles >> (call env free_threads >> free_slaves (c ∷ rest))))

    -- The master does not look whether it got the array. It stores a 0 before it calls
    -- `pthread_create` and none after it failed: `left` stands for what the failed call leaves there.
    unfoldable pub master_pass : (left : Reply → Handle) → ℕ → List MasterConfiguration → M Pass
    master_pass left w [] = end_of_pass w (pure tt)
    master_pass left w (c ∷ rest) = call env (alloc_threads (length (c ∷ rest))) >>= λ p.
        branch (is_zero p.ret) overrun (
          start_threads left 0 (c ∷ rest) >>= λ handles. end_of_pass w (
            cancel_masters handles
            >> (call env free_threads >> free_modbus_master_config_data (c ∷ rest))))

  -- One pass of the outer loop of each program.
  unfoldable pub pi_modbus_slave : (lib : Libraries) → Platform lib → ℕ → M Pass
  pi_modbus_slave lib platform w =
      get_slave_device_config_list env lib platform >>= λ r. slave_pass r.0 w r.1

  unfoldable pub pi_modbus_master :
      (left : Reply → Handle) → (lib : Libraries) → Platform lib → ℕ → M Pass
  pi_modbus_master left lib platform w =
      get_master_device_config_list env lib platform >>= λ r. master_pass r.0 left w r.1
