-- ===== src/Generator/Schedule.antt =====
-- When the periodic sensors send: `event_count`, `scheduled_time_ns` and `apply_clock_drift`.
use native.Mathlib.Nat.{
  mul-le-mul, mul-add-div_right, div-add-mod', div-le_self, mod-lt, mul-le-mul_left,
  div-le_of_le-mul, le-div_iff_mul-le, div-lt_iff_lt-mul,
}
use trace_forge.Common.{
  ℕ, zero, suc, ◌+◌, ◌*◌, ◌/◌, ◌%◌, ◌≤◌, ◌<◌, ◌≡◌, ap, arith, ◌==◌, if◌then◌else◌, u64_mod,
}
use trace_forge.Common.Int.{
  ℤ, pos, negsuc, pos_part, neg_part, to_u64, from_u64, ◌+ℤ◌, ◌*ℤ◌, ◌/ℤ◌, ◌%ℤ◌, sub_ℕ,
}
use trace_forge.Generator.{nanoseconds_per_second, probability_scale}

unfoldable pub event_count : ℤ → ℕ → ℕ
event_count duration_ns rate_hz =
    let whole_seconds = to_u64 (duration_ns /ℤ nanoseconds_per_second) in
    let remaining_ns = to_u64 (duration_ns %ℤ nanoseconds_per_second) in
    if rate_hz == 0
    then 0
    else (whole_seconds * rate_hz % u64_mod
        + remaining_ns * rate_hz % u64_mod / nanoseconds_per_second)
      % u64_mod

-- For a rate above 0.
unfoldable pub scheduled_time_ns : ℕ → ℕ → ℤ
scheduled_time_ns index rate_hz =
    let whole_seconds = index / rate_hz in
    let fractional_index = index % rate_hz in
    from_u64 (
      (whole_seconds * nanoseconds_per_second % u64_mod
        + fractional_index * nanoseconds_per_second % u64_mod / rate_hz)
      % u64_mod)

unfoldable pub apply_clock_drift : ℤ → ℤ → ℤ
apply_clock_drift elapsed_ns drift_ppm =
    elapsed_ns
    +ℤ elapsed_ns /ℤ probability_scale *ℤ drift_ppm
    +ℤ elapsed_ns %ℤ probability_scale *ℤ drift_ppm /ℤ probability_scale

-- How many events a rate gives in a duration.
pub event_count_lem :
    (n rate : ℕ)
    → n ≤ 3_600_000_000_000
    → rate ≤ 10_000
    → event_count (pos n) rate ≡ n * rate / nanoseconds_per_second
unfolding event_count to_u64 ◌/ℤ◌ ◌%ℤ◌
event_count_lem n rate b c =
    let k = nanoseconds_per_second in
    let few : n / k * rate ≤ 3_600 * 10_000 = mul-le-mul {n₂ = 3_600} (omega arith) c in
    let part : n % k * rate ≤ k * 10_000 = mul-le-mul {n₂ = k} (omega arith) c in
    let whole : (n / k * rate * k + n % k * rate) / k ≡ n / k * rate + n % k * rate / k =
      mul-add-div_right {m = k} (omega arith) (n / k * rate) (n % k * rate) in
    let split : n * rate ≡ n / k * rate * k + n % k * rate =
      omega (arith, ap (λ (t : ℕ). t * rate) (div-add-mod' n k)) in
    ground (arith, few, part, whole, split)

pub scheduled_time_ns_lem :
    (index rate : ℕ)
    → 0 < rate
    → rate ≤ 10_000
    → index < 3_600 * 10_000
    → scheduled_time_ns index rate ≡ pos (index * nanoseconds_per_second / rate)
unfolding scheduled_time_ns from_u64
scheduled_time_ns_lem index rate p b c =
    let k = nanoseconds_per_second in
    let few : index / rate ≤ index = div-le_self index rate in
    let part : index % rate < rate = mod-lt index p in
    let whole : (index / rate * k * rate + index % rate * k) / rate
        ≡ index / rate * k + index % rate * k / rate =
      mul-add-div_right p (index / rate * k) (index % rate * k) in
    let split : index * k ≡ index / rate * k * rate + index % rate * k =
      omega (arith, ap (λ (t : ℕ). t * k) (div-add-mod' index rate)) in
    let small : index % rate * k / rate ≤ index % rate * k = div-le_self _ rate in
    ground (arith, few, part, whole, split, small)

-- The index of a periodic event is below its count exactly if its time lies within the duration.
pub scheduled_within :
    (n rate index : ℕ)
    → 0 < rate
    → index < n * rate / nanoseconds_per_second
    → index * nanoseconds_per_second / rate < n
scheduled_within n rate index p h =
    let room : suc index * nanoseconds_per_second ≤ n * rate =
      (le-div_iff_mul-le {k = nanoseconds_per_second} (omega arith)).0 h in
    (div-lt_iff_lt-mul p).1 (omega arith)

pos-mul-pos : (a m : ℕ) → pos a *ℤ pos m ≡ pos (a * m)
unfolding ◌*ℤ◌
pos-mul-pos a m = ground arith

pos-mul-negsuc : (a m : ℕ) → pos a *ℤ negsuc m ≡ sub_ℕ 0 (a * suc m)
unfolding ◌*ℤ◌
pos-mul-negsuc a m = ground arith

negated-div : (n : ℕ) → sub_ℕ 0 n /ℤ probability_scale ≡ sub_ℕ 0 (n / probability_scale)
unfolding ◌/ℤ◌
negated-div zero = ground arith
negated-div (suc n) = ground arith

-- A drift of at most a million parts per million keeps the time between 0 and twice the elapsed time.
pub apply_clock_drift-bounds :
    (e : ℕ) (ppm : ℤ)
    → pos_part ppm ≤ probability_scale
    → neg_part ppm ≤ probability_scale
    → (neg_part (apply_clock_drift (pos e) ppm) ≡ 0)
      × (pos_part (apply_clock_drift (pos e) ppm) ≤ 2 * e)
unfolding apply_clock_drift ◌/ℤ◌ ◌%ℤ◌ ◌+ℤ◌
apply_clock_drift-bounds e (pos m) a b =
    let k = probability_scale in
    let whole : e / k * m ≤ e / k * k = mul-le-mul_left (e / k) a in
    let part : e % k * m / k ≤ e % k =
      div-le_of_le-mul k (omega (arith, mul-le-mul_left (e % k) a)) in
    rw (pos-mul-pos (e / k) m, pos-mul-pos (e % k) m) (ground (arith, whole, part))
apply_clock_drift-bounds e (negsuc m) a b =
    let k = probability_scale in
    let whole : e / k * suc m ≤ e / k * k = mul-le-mul_left (e / k) b in
    let part : e % k * suc m / k ≤ e % k =
      div-le_of_le-mul k (omega (arith, mul-le-mul_left (e % k) b)) in
    rw (pos-mul-negsuc (e / k) m, pos-mul-negsuc (e % k) m, negated-div (e % k * suc m))
      (ground (arith, whole, part))
