-- ===== src/Scheduler/Intervals.antt =====
-- `get_minimal_modbus_action_interval`: the shortest interval in the queue.
use revpi_modbus.Prelude.{
  subst, ap, ℕ, ◌-◌, ◌≤◌, ◌<◌, ◌^◌, ◌≡◌, ◌≢◌, refl, some, arith, List, [], ◌∷◌, All, Holds, ◌⊎◌,
  inl, inr, Bool-cases,
}
use revpi_modbus.Prelude.Int.{is_neg}
use revpi_modbus.Scheduler.{
  Timespec, IsNormal, nanoseconds, SchedulerEvent, minimal_interval_from, longest_interval,
  get_minimal_modbus_action_interval,
}
use revpi_modbus.Scheduler.Clock.{timespec_diff_lem}

-- An interval that `timespec_diff` can compare: normalised, with seconds below `INT32_MAX`.
pub record Comparable (t : Timespec) : Type 0 where
  pub normal : IsNormal t
  pub short : t.tv_sec < 2 ^ 31 - 1

abbrev pub Intervals : List SchedulerEvent → Type 0
Intervals q = All (λ (e : SchedulerEvent). Comparable e.interval_time) q

-- `r` is one of `m` and the intervals of `q`, and none of them is shorter.
pub record IsLeast (m : Timespec) (q : List SchedulerEvent) (r : Timespec) : Type 0 where
  pub first : nanoseconds r ≤ nanoseconds m
  pub rest : All (λ (e : SchedulerEvent). nanoseconds r ≤ nanoseconds e.interval_time) q
  pub attained : (r ≡ m) ⊎ ((e : SchedulerEvent) × Holds e q × (r ≡ e.interval_time))

All-least_mono :
    (r s : ℕ) (q : List SchedulerEvent)
    → r ≤ s
    → All (λ (e : SchedulerEvent). s ≤ nanoseconds e.interval_time) q
    → All (λ (e : SchedulerEvent). r ≤ nanoseconds e.interval_time) q
All-least_mono r s [] h a = tt
All-least_mono r s (e ∷ q) h a = (omega arith, All-least_mono r s q h a.1)

IsLeast-keep :
    (m : Timespec) (e : SchedulerEvent) (q : List SchedulerEvent) (r : Timespec)
    → nanoseconds m ≤ nanoseconds e.interval_time
    → IsLeast m q r
    → IsLeast m (e ∷ q) r
IsLeast-keep m e q r h l = record {
  first = l.first;
  rest = (omega (arith, l.first), l.rest);
  attained = elim l.attained [ inl a ↦ inl a | inr (x, at, eq) ↦ inr (x, inr at, eq) ];
}

IsLeast-take :
    (m : Timespec) (e : SchedulerEvent) (q : List SchedulerEvent) (r : Timespec)
    → nanoseconds e.interval_time ≤ nanoseconds m
    → IsLeast e.interval_time q r
    → IsLeast m (e ∷ q) r
IsLeast-take m e q r h l = record {
  first = omega (arith, l.first);
  rest = (l.first, l.rest);
  attained = inr (elim l.attained [ inl a ↦ (e, inl refl, a) | inr (x, at, eq) ↦ (x, inr at, eq) ]);
}

minimal_interval_from_lem :
    (m : Timespec) (q : List SchedulerEvent)
    → IsNormal m
    → m.tv_sec < 2 ^ 31
    → Intervals q
    → (r : Timespec) × (minimal_interval_from m q ≡ some r) × IsLeast m q r
unfolding minimal_interval_from
minimal_interval_from_lem m [] n s a =
    (m, refl, record { first = omega arith; rest = tt; attained = inl refl })
minimal_interval_from_lem m (e ∷ q) n s (c, a) =
    let (d, k, diff, _, _, sign) =
      timespec_diff_lem e.interval_time m c.normal n (omega (arith, c.short)) s in
    elim (Bool-cases (is_neg d)) [
      | inl shorter ↦
          let (r, eq, l) =
            minimal_interval_from_lem e.interval_time q c.normal (omega (arith, c.short)) a in
          (
            r,
            rw (diff, minimal_interval_from, shorter) eq,
            IsLeast-take m e q r (omega (arith, sign.0 shorter)) l,
          )
      | inr longer ↦
          let (r, eq, l) = minimal_interval_from_lem m q n s a in
          (
            r,
            rw (diff, minimal_interval_from, longer) eq,
            IsLeast-keep m e q r (ground (arith, sign)) l,
          )
    ]

longest-strict : (t : Timespec) → Comparable t → nanoseconds t < nanoseconds longest_interval
longest-strict t c = omega (arith, c.normal, c.short)

-- On a queue that is not empty, whose intervals are normalised and shorter than `INT32_MAX`
-- seconds, `get_minimal_modbus_action_interval` passes its assertions and finds the interval of an
-- event in the queue that no other event undercuts.
pub get_minimal_modbus_action_interval_lem :
    (q : List SchedulerEvent)
    → q ≢ []
    → Intervals q
    → (e : SchedulerEvent) × (get_minimal_modbus_action_interval q ≡ some e.interval_time)
      × Holds e q
      × All (λ (x : SchedulerEvent). nanoseconds e.interval_time ≤ nanoseconds x.interval_time) q
unfolding get_minimal_modbus_action_interval
get_minimal_modbus_action_interval_lem [] ne a = absurd (ne refl)
get_minimal_modbus_action_interval_lem (x ∷ q) ne (c, a) =
    let (r, eq, l) =
      minimal_interval_from_lem longest_interval (x ∷ q) (omega arith) (omega arith) (c, a) in
    elim l.attained [
      | inl top ↦
          absurd (omega (arith, longest-strict x.interval_time c, l.rest.0, ap nanoseconds top))
      | inr (e, at, same) ↦ (
        e,
        rw eq (ap some same),
        at,
        subst
            (λ (t : Timespec).
              All (λ (x : SchedulerEvent). nanoseconds t ≤ nanoseconds x.interval_time) (x ∷ q))
            same l.rest,
      )
    ]
