-- ===== src/Scheduler/Time.antt =====
-- `timespec_add` and `timespec_diff` of src/Scheduler.c. Times of CLOCK_MONOTONIC and intervals
-- are not negative, so a `struct timespec` is a pair of naturals; a difference has signed seconds.
use revpi_modbus.Prelude.{
  ℕ, ◌+◌, ◌-◌, ◌*◌, ◌<◌, Bool, Option, none, some, ltb, if◌then◌else◌, ◌==◌, ◌&&◌, ◌||◌,
}
use revpi_modbus.Prelude.Int.{ℤ, sub_ℕ, to_int32}

pub record Timespec : Type 0 where
  pub tv_sec : ℕ
  pub tv_nsec : ℕ

-- `s32_microseconds_per_second` and `s32_nanoseconds_per_second`.
abbrev pub microseconds_per_second : ℕ
microseconds_per_second = 1_000_000

abbrev pub nanoseconds_per_second : ℕ
nanoseconds_per_second = 1_000_000_000

-- The time that a `struct timespec` stands for.
abbrev pub nanoseconds : Timespec → ℕ
nanoseconds t = t.tv_sec * nanoseconds_per_second + t.tv_nsec

-- The assertion of both functions on each argument.
abbrev pub IsNormal : Timespec → Type 0
IsNormal t = t.tv_nsec < nanoseconds_per_second

-- The two assertions that both functions begin with.
abbrev pub both_normal : Timespec → Timespec → Bool
both_normal a b = ltb a.tv_nsec nanoseconds_per_second && ltb b.tv_nsec nanoseconds_per_second

-- `timespec_add` behind its assertions.
unfoldable pub add_carry : Timespec → Timespec → Timespec
add_carry a b =
    if ltb (a.tv_nsec + b.tv_nsec) nanoseconds_per_second
    then record { tv_sec = a.tv_sec + b.tv_sec; tv_nsec = a.tv_nsec + b.tv_nsec }
    else record {
      tv_sec = a.tv_sec + b.tv_sec + 1;
      tv_nsec = a.tv_nsec + b.tv_nsec - nanoseconds_per_second;
    }

-- `none` is a failed assertion.
unfoldable pub timespec_add : Timespec → Timespec → Option Timespec
timespec_add a b = if both_normal a b then some (add_carry a b) else none

-- `timespec_diff` behind its assertions: the value returned, and `diff->tv_nsec`. The returned
-- `int32_t` is the low half of the difference of the seconds.
unfoldable pub sub_borrow : Timespec → Timespec → ℤ × ℕ
sub_borrow a b =
    if ltb a.tv_nsec b.tv_nsec
    then (to_int32 (sub_ℕ a.tv_sec (b.tv_sec + 1)), nanoseconds_per_second - b.tv_nsec + a.tv_nsec)
    else (to_int32 (sub_ℕ a.tv_sec b.tv_sec), a.tv_nsec - b.tv_nsec)

-- `none` is a failed assertion.
unfoldable pub timespec_diff : Timespec → Timespec → Option (ℤ × ℕ)
timespec_diff a b = if both_normal a b then some (sub_borrow a b) else none

-- The test of `insertEventByDueDate`.
unfoldable pub is_before : Timespec → Timespec → Bool
is_before a b = ltb a.tv_sec b.tv_sec || (a.tv_sec == b.tv_sec && ltb a.tv_nsec b.tv_nsec)
