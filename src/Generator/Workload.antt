-- ===== src/Generator/Workload.antt =====
-- `WorkloadGenerator`: its constructor and `generate`.
pub mod Payloads
pub mod Base
pub mod Emitted
use trace_forge.Common.{
  ℕ, ◌%◌, Bool, true, false, ◌==◌, ltb, if◌then◌else◌, Option, none, some, List, [], ◌∷◌, ◌++◌,
  length, u64_mod,
}
use trace_forge.Common.Int.{ℤ, eqb_ℤ, ltb_ℤ}
use trace_forge.Common.Text.{codes}
use trace_forge.Common.Sort.{bytes_lt, sort_by}
use trace_forge.Telemetry.Double.{Arithmetic}
use trace_forge.Telemetry.Event.{TelemetryEvent, Protobuf}
use trace_forge.Generator.{GeneratorConfig, GenerationStats, GeneratedWorkload}
use trace_forge.Generator.Random.{Engine}
use trace_forge.Generator.Config.{ConfigError, validate_config}
use trace_forge.Generator.Events.{Draws, ◌>>=◌, ret, append_periodic, append_controller_events}
use trace_forge.Generator.Faults.{inject, reorder}
use trace_forge.Generator.Hash.{stable_event_hash}
use trace_forge.Generator.Workload.Payloads.{
  accelerometer_payload, gyroscope_payload, camera_payload, gps_payload, temperature_payload,
  fault_payload,
}

-- The comparison that `std::sort` is given.
abbrev pub precedes : TelemetryEvent → TelemetryEvent → Bool
precedes left right =
    if eqb_ℤ left.source_timestamp_ns right.source_timestamp_ns
    then if bytes_lt left.producer_id right.producer_id
      then true
      else if bytes_lt right.producer_id left.producer_id
      then false
      else ltb left.sequence_number right.sequence_number
    else ltb_ℤ left.source_timestamp_ns right.source_timestamp_ns

module _ {R : Type 0} (engine : Engine R) (arithmetic : Arithmetic) (config : GeneratorConfig) where
  -- The events in the order in which they are appended.
  unfoldable pub base_events : Draws R (List TelemetryEvent)
  base_events = do
    accelerometer ←
        append_periodic engine config (codes "sim-accelerometer") config.rates.accelerometer_hz
          (accelerometer_payload arithmetic)
    gyroscope ←
        append_periodic engine config (codes "sim-gyroscope") config.rates.gyroscope_hz
          (gyroscope_payload arithmetic)
    camera ←
        append_periodic engine config (codes "sim-camera") config.rates.camera_hz camera_payload
    gps ←
        append_periodic engine config (codes "sim-gps") config.rates.gps_hz (gps_payload arithmetic)
    temperature ←
        append_periodic engine config (codes "sim-temperature") config.rates.temperature_hz
          (temperature_payload arithmetic)
    fault ←
        append_periodic engine config (codes "sim-fault") config.rates.fault_monitor_hz
          (fault_payload engine)
    controller ← append_controller_events engine config
    ret (accelerometer ++ gyroscope ++ camera ++ gps ++ temperature ++ fault ++ controller)

  -- From the sort to the hash.
  unfoldable pub emit : Protobuf → List TelemetryEvent → R → Option GeneratedWorkload
  emit p events r =
      let sorted = sort_by precedes events in
      let counted : GenerationStats = record {
        generated_events = length sorted;
        dropped_events = 0;
        duplicated_events = 0;
        reordered_pairs = 0;
      } in
      let (r₁, injected, kept) = inject engine config.faults counted sorted r in
      let (r₂, reordered, emitted) = reorder engine config.faults injected kept r₁ in
      elim (stable_event_hash p emitted) [
        | none ↦ none
        | some hash ↦ some (record { events = emitted; stats = reordered; hash = hash })
      ]

  -- `generate`, from the state that the seed gives; `none` where it throws.
  unfoldable pub generate : Protobuf → R → Option GeneratedWorkload
  generate p r = elim (base_events r) [ none ↦ none | some (r', events) ↦ emit p events r' ]
