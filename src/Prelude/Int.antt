-- ===== src/Prelude/Int.antt =====
-- Signed C integers over the native numbers: the order tests the code makes, and the conversion to
-- `int32_t`.
use revpi_modbus.Prelude.{◌==◌}
use Prim.Native.Nat.{ℕ, suc, ◌-◌, ◌%◌, ◌^◌}
use mathlib.Core.Bool.{Bool, true, false}
use revpi_modbus.Prelude.Tests.{ltb, if◌then◌else◌}

-- `negsuc n` is -(n + 1).
pub data ℤ : Type 0 where
  pos : ℕ → ℤ
  negsuc : ℕ → ℤ

abbrev pub pos_part : ℤ → ℕ
pos_part (pos n) = n
pos_part (negsuc n) = 0

abbrev pub neg_part : ℤ → ℕ
neg_part (pos n) = 0
neg_part (negsuc n) = suc n

-- a - b, as an integer.
abbrev pub sub_ℕ : ℕ → ℕ → ℤ
sub_ℕ a b = if ltb a b then negsuc (b - a - 1) else pos (a - b)

-- `x < 0`.
abbrev pub is_neg : ℤ → Bool
is_neg (pos n) = false
is_neg (negsuc n) = true

-- `x == 0`.
abbrev pub is_zero : ℤ → Bool
is_zero (pos n) = n == 0
is_zero (negsuc n) = false

-- `x <= 0`.
abbrev pub is_nonpos : ℤ → Bool
is_nonpos (pos n) = ltb n 1
is_nonpos (negsuc n) = true

-- `x < n` for an unsigned `n` that the usual conversions leave positive.
abbrev pub ltb_ℤ_ℕ : ℤ → ℕ → Bool
ltb_ℤ_ℕ (pos m) n = ltb m n
ltb_ℤ_ℕ (negsuc m) n = true

-- `(int32_t)x` keeps the low 32 bits.
abbrev pub to_int32 : ℤ → ℤ
to_int32 (pos n) =
    if ltb (n % 2 ^ 32) (2 ^ 31) then pos (n % 2 ^ 32) else negsuc (2 ^ 32 - n % 2 ^ 32 - 1)
to_int32 (negsuc n) =
    if ltb (n % 2 ^ 32) (2 ^ 31) then negsuc (n % 2 ^ 32) else pos (2 ^ 32 - n % 2 ^ 32 - 1)

-- `(uint32_t)x`.
abbrev pub to_uint32 : ℤ → ℕ
to_uint32 (pos n) = n % 2 ^ 32
to_uint32 (negsuc n) = 2 ^ 32 - n % 2 ^ 32 - 1

-- The test for the result -1, by which libmodbus and select report an error.
abbrev pub is_minus_one : ℤ → Bool
is_minus_one (pos n) = false
is_minus_one (negsuc n) = n == 0
