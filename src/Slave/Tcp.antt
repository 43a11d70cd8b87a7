-- ===== src/Slave/Tcp.antt =====
-- `startTcpSlaveThread` in src/ModbusSlaveThread.c: one thread serves all connections.

pub mod Invariant
use revpi_modbus.Config.{ProcessImageConfiguration}
use revpi_modbus.Prelude.{
  if◌then◌else◌, ℕ, suc, zero, ◌==◌, ◌+◌, ◌-◌, Bool, true, false, not, leb, ltb, List, Option, some,
  none, get_or,
}
use revpi_modbus.Prelude.Int.{pos_part, ℤ, pos, negsuc, is_neg, is_minus_one}
use revpi_modbus.External.{
  Env, M, ◌>>=◌, ◌>>◌, pure, call, branch, overrun, select_fds, accept_fd, close_fd,
  modbus_set_socket,
}
use revpi_modbus.Slave.{release_slave, Mapping, Serve, process_modbus_request}

-- `__FD_SETSIZE`.
abbrev pub fd_setsize : ℕ
fd_setsize = 1024

abbrev pub FdSet : Type 0
FdSet = ℕ → Bool

-- `FD_SET` and `FD_CLR`. A descriptor that the set has no bit for is written outside of it.
unfoldable pub with_fd : FdSet → ℕ → FdSet
with_fd set fd n = if n == fd then true else set n

unfoldable pub without_fd : FdSet → ℕ → FdSet
without_fd set fd n = if n == fd then false else set n

abbrev pub fd_set : ℤ → FdSet → M FdSet
fd_set (pos fd) set h = elim (ltb fd fd_setsize) [
  | true ↦ pure (with_fd set fd) h
  | false ↦ overrun h
]
fd_set (negsuc fd) set h = overrun h

-- The state of the loop, with the mapping.
pub record Connections : Type 0 where
  pub refset : FdSet
  pub fdmax : ℕ
  pub mapping : Mapping

module _ (env : Env) (serve : Serve) (c : ProcessImageConfiguration) (buf : List ℕ)
    (server : ℕ) where
  -- A client asks for a connection.
  unfoldable pub accept_connection : Connections → M Connections
  accept_connection s = call env (accept_fd server) >>= λ r. branch (is_minus_one r.ret) (pure s) (
      fd_set r.ret s.refset >>= λ refset. pure (record s {
        refset = refset;
        fdmax = if ltb s.fdmax (pos_part r.ret) then pos_part r.ret else s.fdmax;
      }))

  -- A request on a connection, which is closed where the request fails.
  unfoldable pub serve_client : ℕ → Connections → M Connections
  serve_client fd s =
      call env (modbus_set_socket fd)
      >> (process_modbus_request env serve buf s.mapping c >>= λ r.
          branch (is_neg r.0)
            (call env (close_fd fd)
              >> pure (record {
                refset = without_fd s.refset fd;
                fdmax = if fd == s.fdmax then s.fdmax - 1 else s.fdmax;
                mapping = r.1;
              }))
            (pure (record s { mapping = r.1 })))

  unfoldable pub serve_socket : FdSet → ℕ → Connections → M Connections
  serve_socket rdset fd s =
      branch (rdset fd) (branch (fd == server) (accept_connection s) (serve_client fd s)) (pure s)

  -- The inner loop from a descriptor on; `none` where the fuel does not last.
  unfoldable pub serve_sockets : (fuel fd : ℕ) → FdSet → Connections → M (Option Connections)
  serve_sockets zero fd rdset s = pure none
  serve_sockets (suc n) fd rdset s =
      branch (leb fd s.fdmax) (serve_socket rdset fd s >>= λ s'. serve_sockets n (fd + 1) rdset s')
        (pure (some s))

  -- One round of the outer loop: `none` where `select` fails and the thread exits. Its answer has a
  -- number for each descriptor below its argument, which is not 0 where there is something to read.
  unfoldable pub serve_round : Connections → M (Option Connections)
  serve_round s = call env (select_fds (s.fdmax + 1)) >>= λ r.
      branch (is_minus_one r.ret) (call env (close_fd server) >> pure none)
        (serve_sockets (fd_setsize + 1) 0 (λ fd. not (get_or r.out fd 0 == 0)) s)

  -- `cleanupTcpSlaveThread`, from a descriptor on: it closes the descriptors of the set.
  unfoldable pub close_sockets : (n fd : ℕ) → FdSet → M (Unit {0})
  close_sockets zero fd set = pure tt
  close_sockets (suc n) fd set =
      branch (set fd) (call env (close_fd fd) >> close_sockets n (fd + 1) set)
        (close_sockets n (fd + 1) set)

  unfoldable pub cleanup_tcp_slave_thread : (mapping context : Bool) → FdSet → M (Unit {0})
  cleanup_tcp_slave_thread mapping context set =
      release_slave env mapping context >> close_sockets fd_setsize 0 set
