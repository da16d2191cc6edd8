-- ===== src/Telemetry/Double.antt =====
-- The C++ `double` as its IEEE 754 binary64 bit pattern: the classification and the comparisons that
-- src/telemetry/validation.cpp and src/replay/replay.cpp use. The arithmetic of doubles is a parameter.
use trace_forge.Common.{ℕ, ◌-◌, ◌/◌, ◌%◌, ◌^◌, Bool, not, ◌&&◌, ◌||◌, ◌==◌, if◌then◌else◌}
use trace_forge.Common.Int.{ℤ, pos, negsuc, ltb_ℤ}

-- Sign at bit 63, exponent at bits 52 to 62, fraction below.
abbrev pub Double : Type 0
Double = ℕ

abbrev pub exponent : Double → ℕ
exponent d = d / 2 ^ 52 % 2 ^ 11

abbrev pub fraction : Double → ℕ
fraction d = d % 2 ^ 52

-- `std::isfinite`: the exponent is not all ones.
abbrev pub is_finite : Double → Bool
is_finite d = not (exponent d == 2047)

abbrev pub is_nan : Double → Bool
is_nan d = exponent d == 2047 && not (fraction d == 0)

-- Numbers are ordered as these integers are, and both zeros are 0.
abbrev pub order_key : Double → ℤ
order_key d =
    let magnitude = d % 2 ^ 63 in
    if d / 2 ^ 63 % 2 == 0 || magnitude == 0 then pos magnitude else negsuc (magnitude - 1)

-- `a < b`, which is false if either is not a number.
abbrev pub less : Double → Double → Bool
less a b = not (is_nan a) && not (is_nan b) && ltb_ℤ (order_key a) (order_key b)

-- 0.0, 90.0, -90.0, 180.0 and -180.0.
abbrev pub d_zero : Double
d_zero = 0

abbrev pub d_90 : Double
d_90 = 0x4056_8000_0000_0000

abbrev pub d_neg_90 : Double
d_neg_90 = 0xc056_8000_0000_0000

abbrev pub d_180 : Double
d_180 = 0x4066_8000_0000_0000

abbrev pub d_neg_180 : Double
d_neg_180 = 0xc066_8000_0000_0000

-- The arithmetic that the code leaves to the compiler, each operation rounded as IEEE 754 asks.
pub record Arithmetic : Type 0 where
  pub of_u64 : ℕ → Double
  pub neg : Double → Double
  pub add : Double → Double → Double
  pub sub : Double → Double → Double
  pub div : Double → Double → Double
