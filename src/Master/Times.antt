-- ===== src/Master/Times.antt =====
-- The timeout of a master and its time between two telegrams.
use native.Mathlib.Nat.{mul-le-mul_left, mul-div-le}
use revpi_modbus.Prelude.{◌^◌, ℕ, ◌+◌, ◌*◌, ◌/◌, ◌≤◌, ◌<◌, ◌≡◌, arith, if◌then◌else◌, ◌==◌}
use revpi_modbus.Scheduler.{
  Timespec, nanoseconds, nanoseconds_per_second, microseconds_per_second, IsNormal,
}
use revpi_modbus.Master.{modbus_timeout, rtu_event_offset}

-- For a normalised interval, the timeout is normalised, as libmodbus wants it, and is half of the
-- interval in whole microseconds, but at least one of them; the nanoseconds on the way to it fit in
-- a 32-bit `long`.
pub modbus_timeout_lem :
    (t : Timespec)
    → IsNormal t
    → let half = nanoseconds t / 2000 in
      let (sec, usec) = modbus_timeout t in
      (usec < microseconds_per_second)
      × (sec * microseconds_per_second + usec ≡ (if half == 0 then 1 else half))
      × (t.tv_nsec + nanoseconds_per_second < 2 ^ 31)
unfolding modbus_timeout
modbus_timeout_lem t normal = ground arith

-- For a normalised interval and at least one action, the time between two telegrams is normalised,
-- and four times the sum of that time over all actions is no longer than the interval.
pub rtu_event_offset_lem :
    (t : Timespec) (count : ℕ)
    → IsNormal t
    → 0 < count
    → IsNormal (rtu_event_offset t count)
      × (4 * (count * nanoseconds (rtu_event_offset t count)) ≤ nanoseconds t)
unfolding rtu_event_offset
rtu_event_offset_lem t count normal some_actions =
    let each = nanoseconds t / count in
    let quarter : each / 4 * 4 ≤ each = omega arith in
    let total : count * (each / 4 * 4) ≤ count * each = mul-le-mul_left count quarter in
    let all : count * each ≤ nanoseconds t = mul-div-le (nanoseconds t) count in
    let whole : nanoseconds (rtu_event_offset t count) ≡ each / 4 = omega arith in
    (omega arith, rw whole (grind (arith, total, all)))
