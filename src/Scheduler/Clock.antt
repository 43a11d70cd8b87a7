-- ===== src/Scheduler/Clock.antt =====
-- The arithmetic of `timespec_add`, `timespec_diff` and the due-date test, in nanoseconds.
use revpi_modbus.Prelude.{ℕ, ◌+◌, ◌*◌, ◌<◌, ◌^◌, ◌≡◌, ◌↔◌, true, some, arith}
use revpi_modbus.Prelude.Int.{pos, ℤ, is_neg, pos_part, neg_part}
use revpi_modbus.Scheduler.{
  Timespec, IsNormal, nanoseconds, nanoseconds_per_second, timespec_add, add_carry, timespec_diff,
  sub_borrow, is_before,
}

pub timespec_add-eq :
    (a b : Timespec) → IsNormal a → IsNormal b → timespec_add a b ≡ some (add_carry a b)
unfolding timespec_add
timespec_add-eq a b ha hb = ground arith

pub add_carry-IsNormal : (a b : Timespec) → IsNormal a → IsNormal b → IsNormal (add_carry a b)
unfolding add_carry
add_carry-IsNormal a b ha hb = ground arith

pub nanoseconds-add_carry :
    (a b : Timespec)
    → IsNormal a
    → IsNormal b
    → nanoseconds (add_carry a b) ≡ nanoseconds a + nanoseconds b
unfolding add_carry
nanoseconds-add_carry a b ha hb = ground arith

-- On normalised times `timespec_add` passes its assertions and returns the normalised time whose
-- nanoseconds are the sum; the sum of the nanosecond fields fits in a 32-bit `long`.
pub timespec_add_lem :
    (a b : Timespec)
    → IsNormal a
    → IsNormal b
    → (t : Timespec) × (timespec_add a b ≡ some t)
      × IsNormal t
      × (nanoseconds t ≡ nanoseconds a + nanoseconds b)
      × (a.tv_nsec + b.tv_nsec < 2 ^ 31)
timespec_add_lem a b ha hb = (
  add_carry a b,
  timespec_add-eq a b ha hb,
  add_carry-IsNormal a b ha hb,
  nanoseconds-add_carry a b ha hb,
  omega arith,
)

-- For normalised times the due-date test compares nanoseconds.
pub is_before_iff :
    (a b : Timespec)
    → IsNormal a
    → IsNormal b
    → (is_before a b ≡ true) ↔ (nanoseconds a < nanoseconds b)
unfolding is_before
is_before_iff a b ha hb = ground arith

-- For normalised times whose seconds fit in an `int32_t`, `timespec_diff` passes its assertions,
-- its result is the normalised difference, and the value returned is negative exactly when the
-- first time is the earlier one.
pub timespec_diff_lem :
    (a b : Timespec)
    → IsNormal a
    → IsNormal b
    → a.tv_sec < 2 ^ 31
    → b.tv_sec < 2 ^ 31
    → (d : ℤ) × (n : ℕ) × (timespec_diff a b ≡ some (d, n))
      × (n < nanoseconds_per_second)
      × (pos_part d * nanoseconds_per_second + n + nanoseconds b
          ≡ neg_part d * nanoseconds_per_second + nanoseconds a)
      × ((is_neg d ≡ true) ↔ (nanoseconds a < nanoseconds b))
unfolding timespec_diff sub_borrow
timespec_diff_lem a b ha hb sa sb =
    ((sub_borrow a b).0, (sub_borrow a b).1, ground arith, ground arith, ground arith, ground arith)

-- What was added is taken away again: for a time and an interval that are normalised, with fewer
-- than 2 ^ 31 seconds together, `timespec_diff` of the sum and the interval gives the time.
pub timespec_diff-add :
    (a b : Timespec)
    → IsNormal a
    → IsNormal b
    → a.tv_sec + b.tv_sec + 1 < 2 ^ 31
    → (t : Timespec) × (timespec_add a b ≡ some t)
      × (timespec_diff t b ≡ some (pos a.tv_sec, a.tv_nsec))
unfolding timespec_add timespec_diff add_carry sub_borrow
timespec_diff-add a b ha hb small = (add_carry a b, ground arith, ground arith)
