-- ===== src/Generator.antt =====
-- `WorkloadGenerator` of src/generator/workload_generator.cpp: its configuration and constants. Durations are
-- counted in nanoseconds, as std::chrono counts them in int64_t.
pub mod Random
pub mod Config
pub mod Schedule
pub mod Events
pub mod Faults
pub mod Hash
pub mod Workload
pub mod Publisher
mod Tests
use trace_forge.Common.{ℕ, List}
use trace_forge.Common.Int.{ℤ}
use trace_forge.Telemetry.Event.{TelemetryEvent}

abbrev pub nanoseconds_per_second : ℕ
nanoseconds_per_second = 1_000_000_000

abbrev pub probability_scale : ℕ
probability_scale = 1_000_000

abbrev pub base_timestamp_ns : ℕ
base_timestamp_ns = 1_700_000_000_000_000_000

abbrev pub max_duration_ns : ℕ
max_duration_ns = 3_600_000_000_000

abbrev pub max_sensor_rate_hz : ℕ
max_sensor_rate_hz = 10_000

abbrev pub max_generated_events : ℕ
max_generated_events = 2_000_000

pub record SensorRates : Type 0 where
  pub accelerometer_hz : ℕ
  pub gyroscope_hz : ℕ
  pub camera_hz : ℕ
  pub gps_hz : ℕ
  pub temperature_hz : ℕ
  pub fault_monitor_hz : ℕ

pub record FaultInjection : Type 0 where
  pub drop_per_million : ℕ
  pub duplicate_per_million : ℕ
  pub reorder_per_million : ℕ

pub record GeneratorConfig : Type 0 where
  pub seed : ℕ
  pub duration : ℤ
  pub max_jitter : ℤ
  pub clock_drift_ppm : ℤ
  pub rates : SensorRates
  pub faults : FaultInjection

pub record GenerationStats : Type 0 where
  pub generated_events : ℕ
  pub dropped_events : ℕ
  pub duplicated_events : ℕ
  pub reordered_pairs : ℕ

pub record GeneratedWorkload : Type 0 where
  pub events : List TelemetryEvent
  pub stats : GenerationStats
  pub hash : ℕ
