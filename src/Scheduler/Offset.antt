-- ===== src/Scheduler/Offset.antt =====
-- `get_minimal_modbus_event_offset` of src/Scheduler.c, which computes with `double`.
use revpi_modbus.Prelude.{
  ℕ, ◌+◌, ◌*◌, ◌/◌, ◌%◌, ◌^◌, ltb, if◌then◌else◌, Option, none, some, List, [], ◌∷◌,
}
use revpi_modbus.Prelude.Int.{ℤ, pos, negsuc}
use revpi_modbus.Scheduler.{Timespec, SchedulerEvent, nanoseconds_per_second}

-- What the code does with a `double`. The conversion to `int64_t` is defined where the truncated
-- value fits.
pub record Double : Type 1 where
  pub W : Type 0
  pub nought : W
  pub of_uint64 : ℕ → W
  pub add : W → W → W
  pub one_over : W → W
  pub to_int64 : W → Option ℤ

-- The interval of an event as a `uint64_t`.
unfoldable pub interval_ns : SchedulerEvent → ℕ
interval_ns e = (e.interval_time.tv_nsec + e.interval_time.tv_sec * nanoseconds_per_second) % 2 ^ 64

-- A quarter of the mean time, by `>> 2`, split into two fields that are `int32_t`. `none` where a
-- field would be negative, which a `Timespec` does not hol
unfoldable pub quarter : ℤ → Option Timespec
quarter (pos mean) =
    if ltb (mean / 4 / nanoseconds_per_second) (2 ^ 31)
    then some (record {
      tv_sec = mean / 4 / nanoseconds_per_second;
      tv_nsec = mean / 4 % nanoseconds_per_second;
    })
    else none
quarter (negsuc mean) = none

module _ (double : Double) where
  open double use {W, nought, of_uint64, add, one_over, to_int64}

  -- The loop, with the sum so far.
  unfoldable pub inverse_mean_from : W → List SchedulerEvent → W
  inverse_mean_from sum [] = sum
  inverse_mean_from sum (e ∷ rest) =
      inverse_mean_from (add sum (one_over (of_uint64 (interval_ns e)))) rest

  -- `none` where the conversion is not defined, or the result is none that a `Timespec` holds.
  unfoldable pub get_minimal_modbus_event_offset : List SchedulerEvent → Option Timespec
  get_minimal_modbus_event_offset q = elim (to_int64 (one_over (inverse_mean_from nought q))) [
    | none ↦ none
    | some mean ↦ quarter mean
  ]
