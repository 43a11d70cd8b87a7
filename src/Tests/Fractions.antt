-- ===== src/Tests/Fractions.antt =====
-- Exact fractions for doubles: they meet what is relied on. There is no infinity, so 1 / 0 is 0.
use revpi_modbus.Prelude.{
  ℕ, zero, suc, ◌+◌, ◌*◌, ◌/◌, ◌^◌, ◌≤◌, ◌<◌, ◌≡◌, refl, ltb, lt→ltb, ltb→lt, if◌then◌else◌, none,
  some, arith, true, false, inl, inr, Bool-cases,
}
use native.Mathlib.Nat.{le-div_iff_mul-le, le_of_mul-le-mul_right, mul-le-mul_right, mul-div-le}
use revpi_modbus.Prelude.Int.{pos}
use revpi_modbus.Scheduler.Offset.{Double}
use revpi_modbus.Scheduler.Quarter.{IsIeee}

-- `num / (below + 1)`.
pub record Fraction : Type 0 where
  pub num : ℕ
  pub below : ℕ

abbrev whole : Fraction → ℕ
whole x = x.num / (x.below + 1)

abbrev inverse : Fraction → Fraction
inverse x = elim x.num [
  | zero ↦ record { num = 0; below = 0 }
  | suc n ↦ record { num = x.below + 1; below = n }
]

abbrev pub fractions : Double
fractions = record {
  W = Fraction;
  nought = record { num = 0; below = 0 };
  of_uint64 = λ n. record { num = n; below = 0 };
  add = λ x y. record {
    num = x.num * (y.below + 1) + y.num * (x.below + 1);
    below = x.below * y.below + x.below + y.below;
  };
  one_over = inverse;
  to_int64 = λ x. if ltb (whole x) (2 ^ 63) then some (pos (whole x)) else none;
}

abbrev le : Fraction → Fraction → Type 0
le x y = x.num * (y.below + 1) ≤ y.num * (x.below + 1)

le_trans : (x y z : Fraction) → le x y → le y z → le x z
le_trans x y z p q =
    le_of_mul-le-mul_right {k = y.below + 1}
      (grind (arith, mul-le-mul_right (z.below + 1) p, mul-le-mul_right (x.below + 1) q))
      (omega arith)

le-add_left : (x y : Fraction) → le x (fractions.add x y)
le-add_left x y = grind arith

le-add_right : (x y : Fraction) → le y (fractions.add x y)
le-add_right x y = grind arith

inverse-le : (x y : Fraction) → le x y → ¬ le x fractions.nought → le (inverse y) (inverse x)
inverse-le x y p positive = go x.num y.num p (λ none. positive (omega (arith, none)))
  where
    go :
        (m n : ℕ)
        → m * (y.below + 1) ≤ n * (x.below + 1)
        → ¬ (m * 1 ≤ 0)
        → le (inverse (record y { num = n })) (inverse (record x { num = m }))
    go zero n p positive = absurd (positive (omega arith))
    go (suc m) zero p positive = absurd (grind (arith, p))
    go (suc m) (suc n) p positive = grind (arith, p)

whole_mono : (x y : Fraction) → le x y → whole x ≤ whole y
whole_mono x y p =
    let k = whole x in
    let scaled : k * (y.below + 1) * (x.below + 1) ≤ y.num * (x.below + 1) =
      grind (arith, p, mul-le-mul_right (y.below + 1) (mul-div-le x.num (x.below + 1))) in
    (le-div_iff_mul-le (omega arith)).1
      (le_of_mul-le-mul_right {k = x.below + 1} scaled (omega arith))

inverse_positive :
    (n : ℕ)
    → 0 < n
    → le fractions.nought (inverse (fractions.of_uint64 n))
      × ¬ le (inverse (fractions.of_uint64 n)) fractions.nought
inverse_positive zero some_n = absurd (omega arith)
inverse_positive (suc n) some_n = (omega arith, λ none. absurd (omega (arith, none)))

whole_of_some :
    (y : Fraction) (n : ℕ)
    → ltb (whole y) (2 ^ 63) ≡ true
    → fractions.to_int64 y ≡ some (pos n)
    → whole y ≡ n
whole_of_some y n fits e = ground (arith, fits, e)

too_large :
    (y : Fraction) (n : ℕ)
    → ltb (whole y) (2 ^ 63) ≡ false
    → fractions.to_int64 y ≡ some (pos n)
    → ⊥
too_large y n large e = ground (arith, large, e)

truncates :
    (x y : Fraction) (n : ℕ)
    → le x y
    → fractions.to_int64 y ≡ some (pos n)
    → (m : ℕ) × (fractions.to_int64 x ≡ some (pos m)) × (m ≤ n)
truncates x y n p e = elim (Bool-cases (ltb (whole y) (2 ^ 63))) [
  | inl fits ↦
      let below_y = whole_mono x y p in
      let fits_y : whole y < 2 ^ 63 = ltb→lt (whole y) (2 ^ 63) fits in
      let same : whole y ≡ n = whole_of_some y n fits e in
      (
        whole x,
        rw (lt→ltb (whole x) (2 ^ 63) (omega (arith, below_y, fits_y))) refl,
        omega (arith, below_y, same),
      )
  | inr large ↦ absurd (too_large y n large e)
]

twice :
    (n : ℕ)
    → 0 < n
    → n < 2 ^ 51
    → (m : ℕ) × (fractions.to_int64 (inverse (inverse (fractions.of_uint64 n))) ≡ some (pos m))
      × (m ≤ n)
twice zero some_n small = absurd (omega arith)
twice (suc n) some_n small =
    let same : (n + 1) / 1 ≡ n + 1 = omega arith in
    (
      (n + 1) / 1,
      rw (lt→ltb ((n + 1) / 1) (2 ^ 63) (omega (arith, same, small))) refl,
      omega (arith, same),
    )

pub fractions-IsIeee : IsIeee fractions
fractions-IsIeee = record {
  le = le;
  nought_refl = omega arith;
  refl_of_le = λ {x} {y} p. omega arith;
  le_trans = λ {x} {y} {z} p q. le_trans x y z p q;
  le-add = λ {x} {y} p q. (le-add_left x y, le-add_right x y);
  one_over-le = λ {x} {y} p positive. inverse-le x y p positive;
  one_over_nonneg = λ {x} p positive. omega arith;
  inverse_positive = λ n some_n small. inverse_positive n some_n;
  truncates = λ {x} {y} {n} p q e. truncates x y n q e;
  twice = λ n some_n small. twice n some_n small;
}
