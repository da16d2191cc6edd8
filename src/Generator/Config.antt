-- ===== src/Generator/Config.antt =====
-- `validate_config`: which configurations the constructor of `WorkloadGenerator` refuses.
use native.Mathlib.Nat.{mul-le-mul}
use trace_forge.Common.{
  ℕ, ap, ◌∙◌, ◌+◌, ◌*◌, ◌/◌, ◌%◌, ◌≤◌, ◌<◌, ◌≡◌, refl, arith, false, ◌||◌, ltb, if◌then◌else◌,
  Option, none, some, List, [], ◌∷◌, u64_mod, length, All, Option-cases, inl, inr,
}
use trace_forge.Common.Int.{ℤ, pos, negsuc, pos_part, neg_part, ltb_ℤ, leb_ℤ, ◌≤ℤ◌, ◌/ℤ◌, to_u64}
use trace_forge.Generator.{
  SensorRates, GeneratorConfig, nanoseconds_per_second, probability_scale, max_duration_ns,
  max_sensor_rate_hz, max_generated_events,
}

-- The texts of the exceptions.
pub data ConfigError : Type 0 where
  duration_out_of_range jitter_out_of_range drift_out_of_range : ConfigError
  drop_too_large duplicate_too_large reorder_too_large sensor_rate_too_large too_many_events :
      ConfigError

abbrev pub rates_of : SensorRates → List ℕ
rates_of r =
    r.accelerometer_hz ∷ r.gyroscope_hz ∷ r.camera_hz ∷ r.gps_hz ∷ r.temperature_hz
    ∷ r.fault_monitor_hz ∷ []

-- The loop over the rates; `none` where it throws.
abbrev pub combine_rates : ℕ → List ℕ → Option ℕ
combine_rates combined [] = some combined
combine_rates combined (rate ∷ rates) =
    let rest = combine_rates ((combined + rate) % u64_mod) rates in
    if ltb max_sensor_rate_hz rate then none else rest

abbrev pub rounded_duration_seconds : ℤ → ℕ
rounded_duration_seconds duration = (to_u64 (duration /ℤ nanoseconds_per_second) + 1) % u64_mod

unfoldable pub check_events : GeneratorConfig → Option ConfigError
check_events config = elim (combine_rates 0 (rates_of config.rates)) [
  | none ↦ some sensor_rate_too_large
  | some combined ↦
      if ltb max_generated_events (combined * rounded_duration_seconds config.duration % u64_mod)
      then some too_many_events
      else none
]

-- The exception, or `none` where the configuration is accepted.
unfoldable pub validate_config : GeneratorConfig → Option ConfigError
validate_config config =
    if leb_ℤ config.duration (pos 0) || ltb_ℤ (pos max_duration_ns) config.duration
    then some duration_out_of_range
    else if ltb_ℤ config.max_jitter (pos 0) || ltb_ℤ (pos max_duration_ns) config.max_jitter
    then some jitter_out_of_range
    else if ltb_ℤ config.clock_drift_ppm (negsuc 999_999)
        || ltb_ℤ (pos 1_000_000) config.clock_drift_ppm
    then some drift_out_of_range
    else if ltb probability_scale config.faults.drop_per_million
    then some drop_too_large
    else if ltb probability_scale config.faults.duplicate_per_million
    then some duplicate_too_large
    else if ltb probability_scale config.faults.reorder_per_million
    then some reorder_too_large
    else check_events config

abbrev pub sum : List ℕ → ℕ
sum [] = 0
sum (x ∷ xs) = x + sum xs

abbrev pub total_rate : SensorRates → ℕ
total_rate r = sum (rates_of r)

-- What the constructor makes sure of.
pub record IsConfig (config : GeneratorConfig) : Type 0 where
  pub duration_ns : ℕ
  pub is_duration : config.duration ≡ pos duration_ns
  pub duration_range : (0 < duration_ns) × (duration_ns ≤ max_duration_ns)
  pub jitter_ns : ℕ
  pub is_jitter : config.max_jitter ≡ pos jitter_ns
  pub jitter_range : jitter_ns ≤ max_duration_ns
  pub drift_range :
      (pos_part config.clock_drift_ppm ≤ 1_000_000) × (neg_part config.clock_drift_ppm ≤ 1_000_000)
  pub faults_range :
      (config.faults.drop_per_million ≤ probability_scale)
      × (config.faults.duplicate_per_million ≤ probability_scale)
      × (config.faults.reorder_per_million ≤ probability_scale)
  pub rates_range : All (λ rate. rate ≤ max_sensor_rate_hz) (rates_of config.rates)
  pub few_events :
      total_rate config.rates * (duration_ns / nanoseconds_per_second + 1) ≤ max_generated_events

combine_rates-sum :
    (combined total : ℕ) (rates : List ℕ)
    → combined + max_sensor_rate_hz * length rates < u64_mod
    → combine_rates combined rates ≡ some total
    → All (λ rate. rate ≤ max_sensor_rate_hz) rates × (total ≡ combined + sum rates)
combine_rates-sum combined total [] b h = (tt, ground arith)
combine_rates-sum combined total (rate ∷ rates) b h =
    ground (arith, combine_rates-sum ((combined + rate) % u64_mod) total rates)

sum-le : (bound : ℕ) (xs : List ℕ) → All (λ x. x ≤ bound) xs → sum xs ≤ bound * length xs
sum-le bound [] h = omega arith
sum-le bound (x ∷ xs) h = omega (arith, sum-le bound xs h.1)

few_events_of :
    (total rate seconds : ℕ)
    → total ≡ 0 + rate
    → rate ≤ 60_000
    → seconds ≤ 3_601
    → ltb max_generated_events (total * seconds % u64_mod) ≡ false
    → rate * seconds ≤ max_generated_events
few_events_of total rate seconds e b c h =
    let small : rate * seconds ≤ 60_000 * 3_601 = mul-le-mul b c in
    let same : total * seconds ≡ rate * seconds =
      let e' : total ≡ rate = omega arith in ap (λ (t : ℕ). t * seconds) e' in
    ground arith

check_events-few :
    (config : GeneratorConfig) (n : ℕ)
    → config.duration ≡ pos n
    → n ≤ max_duration_ns
    → check_events config ≡ none
    → All (λ rate. rate ≤ max_sensor_rate_hz) (rates_of config.rates)
      × (total_rate config.rates * (n / nanoseconds_per_second + 1) ≤ max_generated_events)
unfolding check_events ◌/ℤ◌ to_u64
check_events-few config n e b h = elim (Option-cases (combine_rates 0 (rates_of config.rates))) [
  | inl c ↦ absurd (ground arith)
  | inr (total, c) ↦
      let (each, all) = combine_rates-sum 0 total (rates_of config.rates) (omega arith) c in
      (
        each,
        few_events_of total (total_rate config.rates) _ all
            (omega (arith, sum-le 10_000 (rates_of config.rates) each)) (omega arith)
            (ground arith),
      )
]

pos_of : (a : ℤ) → pos 0 ≤ℤ a → a ≡ pos (pos_part a)
pos_of a h = ground arith

-- The tests of `validate_config` before the rates.
validate_config-ranges :
    (config : GeneratorConfig)
    → validate_config config ≡ none
    → ((0 < pos_part config.duration) × (pos_part config.duration ≤ max_duration_ns))
      × (config.duration ≡ pos (pos_part config.duration))
      × (pos_part config.max_jitter ≤ max_duration_ns)
      × (config.max_jitter ≡ pos (pos_part config.max_jitter))
      × ((pos_part config.clock_drift_ppm ≤ 1_000_000)
          × (neg_part config.clock_drift_ppm ≤ 1_000_000))
      × ((config.faults.drop_per_million ≤ probability_scale)
          × (config.faults.duplicate_per_million ≤ probability_scale)
          × (config.faults.reorder_per_million ≤ probability_scale))
      × (check_events config ≡ none)
unfolding validate_config
validate_config-ranges config h = ground arith

pub validate_config-IsConfig :
    (config : GeneratorConfig) → validate_config config ≡ none → IsConfig config
validate_config-IsConfig config h =
    let (duration, is_duration, jitter, is_jitter, drift, faults, events) =
      validate_config-ranges config h in
    let (rates, few) =
      check_events-few config (pos_part config.duration) is_duration duration.1 events in
    record {
      duration_ns = pos_part config.duration;
      is_duration = is_duration;
      duration_range = duration;
      jitter_ns = pos_part config.max_jitter;
      is_jitter = is_jitter;
      jitter_range = jitter;
      drift_range = drift;
      faults_range = faults;
      rates_range = rates;
      few_events = few;
    }

combine_rates-some :
    (combined : ℕ) (rates : List ℕ)
    → combined + max_sensor_rate_hz * length rates < u64_mod
    → All (λ rate. rate ≤ max_sensor_rate_hz) rates
    → combine_rates combined rates ≡ some (combined + sum rates)
combine_rates-some combined [] b h = ground arith
combine_rates-some combined (rate ∷ rates) b h =
    ground (arith, combine_rates-some ((combined + rate) % u64_mod) rates)

IsConfig-check_events : (config : GeneratorConfig) → IsConfig config → check_events config ≡ none
unfolding check_events ◌/ℤ◌ to_u64
IsConfig-check_events config k =
    let combined : combine_rates 0 (rates_of config.rates) ≡ some (total_rate config.rates) =
      combine_rates-some 0 (rates_of config.rates) (omega arith) k.rates_range
      ∙ ap some (omega arith) in
    let seconds : rounded_duration_seconds config.duration
        ≡ k.duration_ns / nanoseconds_per_second + 1 =
      ap rounded_duration_seconds k.is_duration ∙ ground (arith, k.duration_range) in
    let few : ltb max_generated_events
          (total_rate config.rates * (k.duration_ns / nanoseconds_per_second + 1) % u64_mod)
        ≡ false =
      ground (arith, k.few_events) in
    rw (combined, check_events, seconds, few) refl

-- The constructor throws no exception if and only if the duration is between one nanosecond and
-- one hour, the jitter between zero and one hour, the drift and the probabilities at most a
-- million, every rate at most 10000, and the combined rate times the seconds of the duration,
-- rounded down, plus one is at most 2000000.
pub validate_config_iff :
    (config : GeneratorConfig)
    → (validate_config config ≡ none → IsConfig config)
      × (IsConfig config → validate_config config ≡ none)
unfolding validate_config
validate_config_iff config = (
  validate_config-IsConfig config,
  λ k.
      let rest = IsConfig-check_events config k in
      ground (
        arith, rest, k.is_duration, k.duration_range, k.is_jitter, k.jitter_range, k.drift_range,
        k.faults_range,
      ),
)
