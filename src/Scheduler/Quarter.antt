-- ===== src/Scheduler/Quarter.antt =====
-- What `get_minimal_modbus_event_offset` gives, from what IEEE 754 says of a `double`.
use revpi_modbus.Prelude.{
  ℕ, ◌*◌, ◌/◌, ◌%◌, ◌^◌, ◌≤◌, ◌<◌, ◌≡◌, ◌≢◌, refl, lt→ltb, some, List, [], ◌∷◌, All, arith,
}
use revpi_modbus.Prelude.Int.{pos}
use revpi_modbus.Scheduler.{Timespec, SchedulerEvent, nanoseconds, nanoseconds_per_second, IsNormal}
use revpi_modbus.Scheduler.Offset.{
  Double, interval_ns, quarter, inverse_mean_from, get_minimal_modbus_event_offset,
}

-- What is relied on: the order of the values that are numbers, and the operations, which round their
-- exact results to the nearest value and so keep an order. For an integer below 2 ^ 51 the two
-- divisions of `twice` err by less than one together.
pub record IsIeee (double : Double) : Type 1 where
  pub le : double.W → double.W → Type 0
  pub nought_refl : le double.nought double.nought
  pub refl_of_le : {x y : double.W} → le x y → le y y
  pub le_trans : {x y z : double.W} → le x y → le y z → le x z
  pub le-add :
      {x y : double.W}
      → le double.nought x
      → le double.nought y
      → le x (double.add x y) × le y (double.add x y)
  pub one_over-le :
      {x y : double.W} → le x y → ¬ le x double.nought → le (double.one_over y) (double.one_over x)
  pub one_over_nonneg :
      {x : double.W}
      → le double.nought x
      → ¬ le x double.nought
      → le double.nought (double.one_over x)
  pub inverse_positive :
      (n : ℕ)
      → 0 < n
      → n < 2 ^ 64
      → le double.nought (double.one_over (double.of_uint64 n))
        × ¬ le (double.one_over (double.of_uint64 n)) double.nought
  pub truncates :
      {x y : double.W} {n : ℕ}
      → le double.nought x
      → le x y
      → double.to_int64 y ≡ some (pos n)
      → (m : ℕ) × (double.to_int64 x ≡ some (pos m)) × (m ≤ n)
  pub twice :
      (n : ℕ)
      → 0 < n
      → n < 2 ^ 51
      → (m : ℕ) × (double.to_int64 (double.one_over (double.one_over (double.of_uint64 n)))
          ≡ some (pos m))
        × (m ≤ n)

-- An interval that is not zero and takes fewer than 51 bits in nanoseconds, some 26 days.
abbrev pub IsBrief : SchedulerEvent → Type 0
IsBrief e = (0 < nanoseconds e.interval_time) × (nanoseconds e.interval_time < 2 ^ 51)

interval_ns-eq : (e : SchedulerEvent) → IsBrief e → interval_ns e ≡ nanoseconds e.interval_time
unfolding interval_ns
interval_ns-eq e b = omega (arith, b.0, b.1)

-- The quarter, while its seconds fit.
quarter_lem :
    (mean : ℕ)
    → mean < 2 ^ 51
    → (t : Timespec) × (quarter (pos mean) ≡ some t) × IsNormal t × (4 * nanoseconds t ≤ mean)
unfolding quarter
quarter_lem mean small =
    let fits : mean / 4 / nanoseconds_per_second < 2 ^ 31 = omega arith in
    (
      record {
        tv_sec = mean / 4 / nanoseconds_per_second;
        tv_nsec = mean / 4 % nanoseconds_per_second;
      },
      rw (quarter, lt→ltb (mean / 4 / nanoseconds_per_second) (2 ^ 31) fits) refl,
      omega arith,
      omega arith,
    )

module _ (double : Double) (ieee : IsIeee double) where
  open double use {W, nought, of_uint64, add, one_over, to_int64}
  open ieee use {le}

  -- What one event adds.
  abbrev share : SchedulerEvent → W
  share e = one_over (of_uint64 (interval_ns e))

  share-positive : (e : SchedulerEvent) → IsBrief e → le nought (share e) × ¬ le (share e) nought
  share-positive e b =
      ieee.inverse_positive (interval_ns e) (omega (arith, interval_ns-eq e b, b.0))
        (omega (arith, interval_ns-eq e b, b.1))

  -- The sum is not below the sum so far, nor below any share.
  inverse_mean_from_lem :
      (sum : W) (q : List SchedulerEvent)
      → le nought sum
      → All IsBrief q
      → le sum (inverse_mean_from double sum q)
        × All (λ e. le (share e) (inverse_mean_from double sum q)) q
  unfolding inverse_mean_from
  inverse_mean_from_lem sum [] positive ok = (ieee.refl_of_le positive, tt)
  inverse_mean_from_lem sum (e ∷ q) positive (b, ok) =
      let (keeps, adds) = ieee.le-add positive (share-positive e b).0 in
      let (more, others) =
        inverse_mean_from_lem (add sum (share e)) q (ieee.le_trans positive keeps) ok in
      (ieee.le_trans keeps more, (ieee.le_trans adds more, others))

  -- The mean is no longer than any interval whose share is in the sum.
  mean_lem :
      (e : SchedulerEvent) (sum : W)
      → IsBrief e
      → le (share e) sum
      → (m : ℕ) × (to_int64 (one_over sum) ≡ some (pos m)) × (m ≤ nanoseconds e.interval_time)
  mean_lem e sum b shared =
      let (nonneg, positive) = share-positive e b in
      let inverse : le (one_over sum) (one_over (share e)) = ieee.one_over-le shared positive in
      let sum_positive : ¬ le sum nought = λ none. positive (ieee.le_trans shared none) in
      let (n, is, short) =
        ieee.twice (interval_ns e) (omega (arith, interval_ns-eq e b, b.0))
          (omega (arith, interval_ns-eq e b, b.1)) in
      let (m, is', less) =
        ieee.truncates (ieee.one_over_nonneg (ieee.le_trans nonneg shared) sum_positive) inverse
          is in
      (m, is', omega (arith, less, short, interval_ns-eq e b))

  all_above :
      (m : ℕ) (t : Timespec) (sum : W) (q : List SchedulerEvent)
      → to_int64 (one_over sum) ≡ some (pos m)
      → 4 * nanoseconds t ≤ m
      → All IsBrief q
      → All (λ e. le (share e) sum) q
      → All (λ (e : SchedulerEvent). 4 * nanoseconds t ≤ nanoseconds e.interval_time) q
  all_above m t sum [] is four ok shared = tt
  all_above m t sum (e ∷ q) is four (b, ok) (s, shared) =
      let (m', is', less) = mean_lem e sum b s in
      (
        let same : m ≡ m' = cc in omega (arith, same, less, four),
        all_above m t sum q is four ok shared,
      )

  -- On a queue that is not empty, whose intervals are not zero and below 26 days, with doubles as
  -- IEEE 754 has them, `get_minimal_modbus_event_offset` gives a normalised time whose conversions
  -- are all defined, and which is at most a quarter of every interval.
  pub get_minimal_modbus_event_offset_lem :
      (q : List SchedulerEvent)
      → q ≢ []
      → All IsBrief q
      → (t : Timespec) × (get_minimal_modbus_event_offset double q ≡ some t)
        × IsNormal t
        × All (λ (e : SchedulerEvent). 4 * nanoseconds t ≤ nanoseconds e.interval_time) q
  unfolding get_minimal_modbus_event_offset
  get_minimal_modbus_event_offset_lem [] some_events ok = absurd (some_events refl)
  get_minimal_modbus_event_offset_lem (e ∷ q) some_events (b, ok) =
      let sum : W = inverse_mean_from double nought (e ∷ q) in
      let (above, shared) = inverse_mean_from_lem nought (e ∷ q) ieee.nought_refl (b, ok) in
      let (m, is, short) = mean_lem e sum b shared.0 in
      let (t, quartered, normal, four) = quarter_lem m (omega (arith, short, b.1)) in
      (
        t,
        rw (get_minimal_modbus_event_offset, is, quartered) refl,
        normal,
        all_above m t sum (e ∷ q) is four (b, ok) shared,
      )
