-- ===== src/Generator/Workload/Base.antt =====
-- The events before the faults, for an accepted configuration.
use native.Mathlib.Nat.{mul-le-mul, div-le_of_le-mul}
use trace_forge.Common.{
  ℕ, ◌+◌, ◌*◌, ◌/◌, ◌≤◌, ◌≡◌, refl, arith, some, List, [], ◌∷◌, ◌++◌, length, length-append, All,
  All-append, Bytes,
}
use trace_forge.Common.Text.{codes}
use trace_forge.Telemetry.Double.{Arithmetic}
use trace_forge.Telemetry.Event.{TelemetryEvent, clock_domain_utc}
use trace_forge.Generator.{
  GeneratorConfig, SensorRates, nanoseconds_per_second, max_generated_events, max_sensor_rate_hz,
}
use trace_forge.Generator.Random.{Engine}
use trace_forge.Generator.Config.{IsConfig, total_rate}
use trace_forge.Generator.Events.{Populate, append_periodic, ◌>>=◌}
use trace_forge.Generator.Events.Valid.{IsStamp, Numbered, append_periodic-Numbered}
use trace_forge.Generator.Events.Controller.{append_controller_events-Numbered}
use trace_forge.Generator.Workload.{base_events}
use trace_forge.Generator.Workload.Payloads.{
  accelerometer_payload, gyroscope_payload, camera_payload, gps_payload, temperature_payload,
  fault_payload,
}

-- An event of the schema's version whose time is a UTC time near the base.
abbrev pub IsTelemetry : TelemetryEvent → Type 0
IsTelemetry e =
    (e.schema_version ≡ 1) × (e.source_clock ≡ clock_domain_utc) × IsStamp e.source_timestamp_ns

pub Numbered-IsTelemetry :
    (producer_id : Bytes) (sequence : ℕ) (es : List TelemetryEvent)
    → Numbered producer_id sequence es
    → All IsTelemetry es
Numbered-IsTelemetry producer_id sequence [] h = tt
Numbered-IsTelemetry producer_id sequence (e ∷ es) (h, hs) =
    ((h.version, h.clock, h.stamp), Numbered-IsTelemetry producer_id (sequence + 1) es hs)

-- What the sensors send in a duration.
abbrev pub periodic_events : ℕ → SensorRates → ℕ
periodic_events n rates =
    n * rates.accelerometer_hz / nanoseconds_per_second
    + n * rates.gyroscope_hz / nanoseconds_per_second
    + n * rates.camera_hz / nanoseconds_per_second
    + n * rates.gps_hz / nanoseconds_per_second
    + n * rates.temperature_hz / nanoseconds_per_second
    + n * rates.fault_monitor_hz / nanoseconds_per_second

part_of : (n rate : ℕ) → n * rate / nanoseconds_per_second ≤ (n / nanoseconds_per_second + 1) * rate
part_of n rate =
    let above : n * rate ≤ (n / nanoseconds_per_second + 1) * nanoseconds_per_second * rate =
      mul-le-mul {n₂ = (n / nanoseconds_per_second + 1) * nanoseconds_per_second} (omega arith)
        (omega arith) in
    div-le_of_le-mul nanoseconds_per_second (omega (arith, above))

-- Never more than the check of the configuration allows.
pub periodic_events-le :
    (n : ℕ) (rates : SensorRates)
    → total_rate rates * (n / nanoseconds_per_second + 1) ≤ max_generated_events
    → periodic_events n rates ≤ max_generated_events
periodic_events-le n rates h = omega (
  arith,
  h,
  part_of n rates.accelerometer_hz,
  part_of n rates.gyroscope_hz,
  part_of n rates.camera_hz,
  part_of n rates.gps_hz,
  part_of n rates.temperature_hz,
  part_of n rates.fault_monitor_hz,
)

length-appended :
    (a b c d e f g : List TelemetryEvent)
    → length (a ++ b ++ c ++ d ++ e ++ f ++ g)
      ≡ length a + length b + length c + length d + length e + length f + length g
length-appended a b c d e f g = simp length-append

-- What holds of the events of each producer holds of all.
appended :
    (a b c d e f g : List TelemetryEvent)
    → All IsTelemetry a
    → All IsTelemetry b
    → All IsTelemetry c
    → All IsTelemetry d
    → All IsTelemetry e
    → All IsTelemetry f
    → All IsTelemetry g
    → All IsTelemetry (a ++ b ++ c ++ d ++ e ++ f ++ g)
appended a b c d e f g va vb vc vd ve vf vg =
    let ab = All-append IsTelemetry a b va vb in
    let abc = All-append IsTelemetry (a ++ b) c ab vc in
    let abcd = All-append IsTelemetry (a ++ b ++ c) d abc vd in
    let abcde = All-append IsTelemetry (a ++ b ++ c ++ d) e abcd ve in
    let abcdef = All-append IsTelemetry (a ++ b ++ c ++ d ++ e) f abcde vf in
    All-append IsTelemetry (a ++ b ++ c ++ d ++ e ++ f) g abcdef vg

module _ {R : Type 0} (engine : Engine R) (arithmetic : Arithmetic) (config : GeneratorConfig)
    (k : IsConfig config) where
  abbrev pub IsBase : List TelemetryEvent → Type 0
  IsBase events =
      All IsTelemetry events
      × (3 + periodic_events k.duration_ns config.rates ≤ length events)
      × (length events ≤ 4 + periodic_events k.duration_ns config.rates)

  abbrev Sensor : Bytes → ℕ → Populate R → R → Type 0
  Sensor producer_id rate populate r =
      (r' : R) × (events : List TelemetryEvent) × (append_periodic engine config producer_id rate
          populate r
        ≡ some (r', events))
      × All IsTelemetry events
      × (length events ≡ k.duration_ns * rate / nanoseconds_per_second)

  sensor :
      (producer_id : Bytes) (rate : ℕ) (populate : Populate R) (r : R)
      → rate ≤ max_sensor_rate_hz
      → Sensor producer_id rate populate r
  sensor producer_id rate populate r b =
      let (r', events, looped, numbered, counted) =
        append_periodic-Numbered engine config k producer_id rate populate r b in
      (r', events, looped, Numbered-IsTelemetry producer_id 0 events numbered, counted)

  -- Nothing throws, and every event carries a valid header.
  pub base_events-IsBase :
      (r : R)
      → (r' : R) × (events : List TelemetryEvent) × (base_events engine arithmetic config r
          ≡ some (r', events))
        × IsBase events
  unfolding base_events
  base_events-IsBase r =
      let (a, (b, (c, (d, (e, (f, _)))))) = k.rates_range in
      let (r₁, es₁, q₁, v₁, n₁) =
        sensor (codes "sim-accelerometer") config.rates.accelerometer_hz
          (accelerometer_payload arithmetic) r a in
      let (r₂, es₂, q₂, v₂, n₂) =
        sensor (codes "sim-gyroscope") config.rates.gyroscope_hz (gyroscope_payload arithmetic) r₁
          b in
      let (r₃, es₃, q₃, v₃, n₃) =
        sensor (codes "sim-camera") config.rates.camera_hz camera_payload r₂ c in
      let (r₄, es₄, q₄, v₄, n₄) =
        sensor (codes "sim-gps") config.rates.gps_hz (gps_payload arithmetic) r₃ d in
      let (r₅, es₅, q₅, v₅, n₅) =
        sensor (codes "sim-temperature") config.rates.temperature_hz
          (temperature_payload arithmetic) r₄ e in
      let (r₆, es₆, q₆, v₆, n₆) =
        sensor (codes "sim-fault") config.rates.fault_monitor_hz (fault_payload engine) r₅ f in
      let (r₇, es₇, q₇, v₇, low, high) = append_controller_events-Numbered engine config k r₆ in
      let lengths = length-appended es₁ es₂ es₃ es₄ es₅ es₆ es₇ in
      (
        r₇,
        es₁ ++ es₂ ++ es₃ ++ es₄ ++ es₅ ++ es₆ ++ es₇,
        rw (q₁, ◌>>=◌)
            (rw (q₂, ◌>>=◌)
              (rw (q₃, ◌>>=◌)
                (rw (q₄, ◌>>=◌) (rw (q₅, ◌>>=◌) (rw (q₆, ◌>>=◌) (rw (q₇, ◌>>=◌) refl)))))),
        (
          appended es₁ es₂ es₃ es₄ es₅ es₆ es₇ v₁ v₂ v₃ v₄ v₅ v₆
              (Numbered-IsTelemetry (codes "sim-controller") 0 es₇ v₇),
          omega (arith, lengths),
          omega (arith, lengths),
        ),
      )
