-- ===== src/External.antt =====
-- What the program calls and does not implement: libmodbus, libpicontrol, pthread, and the clock.
-- A call is an event of a history, newest first, and the environment answers each call by the
-- history before it, so that a statement for every environment holds for every behaviour of these
-- libraries. The functions of the program are written in a monad over the history. Messages to
-- syslog are left out.
mod Monad
pub mod Reasoning
use revpi_modbus.Prelude.{ℕ, ◌+◌, ◌*◌, ◌≤◌, ◌<◌, ◌≡◌, List}
use revpi_modbus.Prelude.Int.{ℤ}
use revpi_modbus.Scheduler.{Timespec}
pub use Monad.*
