-- ===== src/Slave/Threads.antt =====
-- `startRtuSlaveThread` and `startTcpSlaveThread` in src/ModbusSlaveThread.c, from their start to
-- their end. A thread that runs is cancelled from outside, here between two requests or two rounds.
use revpi_modbus.Prelude.{ℕ, zero, suc, Bool, true, false, List, Option, none, some}
use revpi_modbus.Prelude.Int.{ℤ, pos_part, is_zero, is_minus_one}
use revpi_modbus.Config.{SlaveDataSizeConfig, ProcessImageConfiguration, TcpConfig, RtuConfig}
use revpi_modbus.External.{
  Call, Env, M, ◌>>=◌, ◌>>◌, pure, call, branch, device_access, sleep_for, modbus_mapping_new,
  modbus_new, modbus_set_slave, modbus_connect, modbus_listen,
}
use revpi_modbus.Slave.{Mapping, Serve, process_modbus_request, release_slave}
use revpi_modbus.Slave.Tcp.{FdSet, fd_set, Connections, serve_round, cleanup_tcp_slave_thread}

-- Where a thread is: before the end of a loop that waits, ended by itself, or cancelled.
pub data ThreadState : Type 0 where
  waiting : ThreadState
  exited : ThreadState
  cancelled : ThreadState

-- The counts of a mapping's tables are those of the configuration.
abbrev pub new_mapping_call : SlaveDataSizeConfig → Call
new_mapping_call s =
    modbus_mapping_new s.coils s.discrete_inputs s.holding_registers s.input_registers

module _ (env : Env) where
  -- Up to `n` tries, one each second, until the serial device can be read and written.
  unfoldable pub wait_for_device : ℕ → M Bool
  wait_for_device zero = pure false
  wait_for_device (suc n) = call env device_access >>= λ r.
      branch (is_zero r.ret) (pure true)
        (call env (sleep_for (record { tv_sec = 1; tv_nsec = 0 })) >> wait_for_device n)

-- `new_mapping` stands for what `modbus_mapping_new` allocates. A pointer that is returned is 0
-- where it is NULL.
module _ (env : Env) (serve : Serve) (new_mapping : SlaveDataSizeConfig → Mapping) where
  -- `n` requests on one mapping.
  unfoldable pub serve_requests : ℕ → List ℕ → ProcessImageConfiguration → Mapping → M Mapping
  serve_requests zero buf c m = pure m
  serve_requests (suc n) buf c m =
      process_modbus_request env serve buf m c >>= λ r. serve_requests n buf c r.1

  -- The cleanup handler of the RTU thread runs at its end.
  abbrev finish : (mapping context : Bool) → ThreadState → M ThreadState
  finish mapping context s = release_slave env mapping context >> pure s

  -- With a mapping and a context.
  unfoldable pub run_rtu_slave :
      ℕ → List ℕ → SlaveDataSizeConfig → ProcessImageConfiguration → RtuConfig → M ThreadState
  run_rtu_slave n buf sizes c rtu = call env (modbus_set_slave rtu.device_modbus_address) >>= λ s.
      branch (is_minus_one s.ret) (finish true true exited) (
        call env modbus_connect >>= λ r.
        branch (is_minus_one r.ret) (finish true true exited)
          (serve_requests n buf c (new_mapping sizes) >> finish true true cancelled))

  unfoldable pub open_rtu_slave :
      ℕ → List ℕ → SlaveDataSizeConfig → ProcessImageConfiguration → RtuConfig → M ThreadState
  open_rtu_slave n buf sizes c rtu = call env (new_mapping_call sizes) >>= λ m.
      branch (is_zero m.ret) (finish false false exited) (
        call env modbus_new >>= λ x.
        branch (is_zero x.ret) (finish true false exited) (run_rtu_slave n buf sizes c rtu))

  -- The whole thread, with up to `w` tries for the device and `n` requests.
  unfoldable pub rtu_slave_thread :
      (w n : ℕ)
      → List ℕ
      → SlaveDataSizeConfig
      → ProcessImageConfiguration
      → RtuConfig
      → M ThreadState
  rtu_slave_thread w n buf sizes c rtu = wait_for_device env w >>= λ there.
      branch there (open_rtu_slave n buf sizes c rtu) (pure waiting)

  -- Up to `n` tries, every five seconds, to listen; the socket.
  unfoldable pub listen_for_masters : ℕ → (connections : ℕ) → M (Option ℤ)
  listen_for_masters zero connections = pure none
  listen_for_masters (suc n) connections = call env (modbus_listen connections) >>= λ r.
      branch (is_minus_one r.ret)
        (call env (sleep_for (record { tv_sec = 5; tv_nsec = 0 }))
          >> listen_for_masters n connections)
        (pure (some r.ret))

  -- Up to `n` rounds: how they end, and the sockets that are open then.
  unfoldable pub serve_rounds :
      ℕ → ProcessImageConfiguration → List ℕ → (server : ℕ) → Connections → M (ThreadState × FdSet)
  serve_rounds zero c buf server s = pure (cancelled, s.refset)
  serve_rounds (suc n) c buf server s = serve_round env serve c buf server s >>= λ r. elim r [
    | none ↦ pure (exited, s.refset)
    | some s' ↦ serve_rounds n c buf server s'
  ]

  -- With a mapping, a context and a socket.
  unfoldable pub run_tcp_slave :
      ℕ → List ℕ → SlaveDataSizeConfig → ProcessImageConfiguration → ℤ → M ThreadState
  run_tcp_slave n buf sizes c server = fd_set server (λ fd. false) >>= λ refset.
      serve_rounds n c buf (pos_part server)
        (record { refset = refset; fdmax = pos_part server; mapping = new_mapping sizes })
      >>= λ r. cleanup_tcp_slave_thread env serve c buf (pos_part server) true true r.1 >> pure r.0

  unfoldable pub tcp_slave_thread :
      (w n : ℕ)
      → List ℕ
      → SlaveDataSizeConfig
      → ProcessImageConfiguration
      → TcpConfig
      → M ThreadState
  tcp_slave_thread w n buf sizes c tcp = call env (new_mapping_call sizes) >>= λ m.
      branch (is_zero m.ret) (finish false false exited) (
        call env modbus_new >>= λ x. branch (is_zero x.ret) (finish true false exited) (
          listen_for_masters w tcp.max_modbus_connections >>= λ r. elim r [
            | none ↦ pure waiting
            | some server ↦ run_tcp_slave n buf sizes c server
          ]))
