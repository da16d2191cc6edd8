-- ===== src/Generator/Tests.antt =====
-- Runs of the generator with an engine that always draws 2 ^ 63.
use mathlib.Core.WellFounded.{Acc}
use mathlib.Core.List.{Perm}
use native.Mathlib.Decide.{dec_lt}
use trace_forge.Common.{
  ℕ, ◌+◌, ◌^◌, ◌≡◌, refl, arith, Option, none, some, List, [], ◌∷◌, length, All, ◌≤◌,
}
use trace_forge.Common.Int.{pos, to_u64, from_u64, ◌+ℤ◌, ◌-ℤ◌, ◌*ℤ◌, ◌/ℤ◌, ◌%ℤ◌}
use trace_forge.Telemetry.Double.{Arithmetic}
use trace_forge.Telemetry.Event.{TelemetryEvent, Protobuf}
use trace_forge.Generator.{GeneratorConfig, GeneratedWorkload, FaultInjection, max_generated_events}
use trace_forge.Generator.Random.{Engine, bounded, chance, draw_from}
use trace_forge.Generator.Config.{IsConfig, validate_config, validate_config_iff, check_events}
use trace_forge.Generator.Schedule.{event_count, scheduled_time_ns, apply_clock_drift}
use trace_forge.Generator.Events.{
  append_periodic, periodic_from, base_event, sample_jitter, append_controller_events,
  controller_from, draw_eighth, degraded_state,
}
use trace_forge.Generator.Faults.{inject, inject_one, reorder}
use trace_forge.Generator.Hash.{stable_event_hash, hash_events, hash_encoded, hash_size, hash_byte}
use trace_forge.Generator.Workload.Payloads.{fault_payload}
use trace_forge.Generator.Workload.Base.{IsTelemetry, periodic_events}
use trace_forge.Generator.Workload.{generate, emit, base_events}
use trace_forge.Generator.Workload.Emitted.{
  InTimeOrder, counters, Serializes, generate-returns, generate-bounds, generate-no_faults,
  generate-all_dropped,
}

abbrev steady_draw : Unit {0} → Unit {0} × ℕ
steady_draw r = (tt, 2 ^ 63)

abbrev steady : Engine (Unit {0})
steady = record {
  draw = steady_draw;
  draw-lt = λ r. omega arith;
  ends = λ threshold small r.
      Acc.intro r (λ later (eq, rejected). absurd (omega (arith, small, rejected)));
}

abbrev no_rounding : Arithmetic
no_rounding = record {
  of_u64 = λ n. n;
  neg = λ a. a;
  add = λ a b. a;
  sub = λ a b. a;
  div = λ a b. a;
}

abbrev terse : Protobuf
terse = record { serialize = λ e. some (e.sequence_number ∷ []); parse = λ bytes. none }

terse-Serializes : Serializes terse
terse-Serializes e = (e.sequence_number ∷ [], refl)

abbrev second_of : FaultInjection → GeneratorConfig
second_of faults = record {
  seed = 1;
  duration = pos 1_000_000_000;
  max_jitter = pos 0;
  clock_drift_ppm = pos 0;
  rates = record {
    accelerometer_hz = 2;
    gyroscope_hz = 0;
    camera_hz = 0;
    gps_hz = 0;
    temperature_hz = 0;
    fault_monitor_hz = 1;
  };
  faults = faults;
}

abbrev no_faults : FaultInjection
no_faults = record { drop_per_million = 0; duplicate_per_million = 0; reorder_per_million = 0 }

abbrev no_drops : FaultInjection
no_drops = record {
  drop_per_million = 0;
  duplicate_per_million = 1_000_000;
  reorder_per_million = 1_000_000;
}

abbrev all_drops : FaultInjection
all_drops = record {
  drop_per_million = 1_000_000;
  duplicate_per_million = 0;
  reorder_per_million = 0;
}

abbrev run : FaultInjection → Option GeneratedWorkload
run faults = generate steady no_rounding (second_of faults) terse tt

abbrev returned : Option GeneratedWorkload → GeneratedWorkload
returned none = record { events = []; stats = counters 0; hash = 0 }
returned (some w) = w

no_faults-accepted : validate_config (second_of no_faults) ≡ none
unfolding validate_config check_events ◌/ℤ◌ to_u64
no_faults-accepted = refl

no_drops-accepted : validate_config (second_of no_drops) ≡ none
unfolding validate_config check_events ◌/ℤ◌ to_u64
no_drops-accepted = refl

all_drops-accepted : validate_config (second_of all_drops) ≡ none
unfolding validate_config check_events ◌/ℤ◌ to_u64
all_drops-accepted = refl

no_faults-runs : run no_faults ≡ some (returned (run no_faults))
unfolding generate emit base_events append_periodic periodic_from base_event sample_jitter
    append_controller_events controller_from draw_eighth degraded_state bounded chance draw_from
    dec_lt event_count scheduled_time_ns apply_clock_drift inject inject_one reorder
    stable_event_hash hash_events hash_encoded hash_size hash_byte fault_payload ◌+ℤ◌ ◌-ℤ◌ ◌*ℤ◌ ◌/ℤ◌
    ◌%ℤ◌ to_u64 from_u64
no_faults-runs = refl

no_drops-runs : run no_drops ≡ some (returned (run no_drops))
unfolding generate emit base_events append_periodic periodic_from base_event sample_jitter
    append_controller_events controller_from draw_eighth degraded_state bounded chance draw_from
    dec_lt event_count scheduled_time_ns apply_clock_drift inject inject_one reorder
    stable_event_hash hash_events hash_encoded hash_size hash_byte fault_payload ◌+ℤ◌ ◌-ℤ◌ ◌*ℤ◌ ◌/ℤ◌
    ◌%ℤ◌ to_u64 from_u64
no_drops-runs = refl

all_drops-runs : run all_drops ≡ some (returned (run all_drops))
unfolding generate emit base_events append_periodic periodic_from base_event sample_jitter
    append_controller_events controller_from draw_eighth degraded_state bounded chance draw_from
    dec_lt event_count scheduled_time_ns apply_clock_drift inject inject_one reorder
    stable_event_hash hash_events hash_encoded hash_size hash_byte fault_payload ◌+ℤ◌ ◌-ℤ◌ ◌*ℤ◌ ◌/ℤ◌
    ◌%ℤ◌ to_u64 from_u64
all_drops-runs = refl

-- Everything is sent twice.
twelve_sent : length (returned (run no_drops)).events ≡ 12
unfolding generate emit base_events append_periodic periodic_from base_event sample_jitter
    append_controller_events controller_from draw_eighth degraded_state bounded chance draw_from
    dec_lt event_count scheduled_time_ns apply_clock_drift inject inject_one reorder
    stable_event_hash hash_events hash_encoded hash_size hash_byte fault_payload ◌+ℤ◌ ◌-ℤ◌ ◌*ℤ◌ ◌/ℤ◌
    ◌%ℤ◌ to_u64 from_u64
twelve_sent = refl

validate_config_iff_example :
    (validate_config (second_of no_faults) ≡ none → IsConfig (second_of no_faults))
    × (IsConfig (second_of no_faults) → validate_config (second_of no_faults) ≡ none)
validate_config_iff_example = validate_config_iff (second_of no_faults)

-- One sensor at the highest rate, just below 200 seconds.
abbrev longest : GeneratorConfig
longest = record (second_of no_faults) {
  duration = pos 199_999_999_999;
  rates = record {
    accelerometer_hz = 10_000;
    gyroscope_hz = 0;
    camera_hz = 0;
    gps_hz = 0;
    temperature_hz = 0;
    fault_monitor_hz = 0;
  };
}

longest-accepted : validate_config longest ≡ none
unfolding validate_config check_events ◌/ℤ◌ to_u64
longest-accepted = refl

longest_count : periodic_events 199_999_999_999 longest.rates ≡ 1_999_999
longest_count = refl

generate-returns_example :
    (w : GeneratedWorkload) × (generate steady no_rounding (second_of no_drops) terse tt ≡ some w)
generate-returns_example =
    generate-returns steady no_rounding (second_of no_drops) terse tt no_drops-accepted
      terse-Serializes

generate-bounds_example :
    All IsTelemetry (returned (run no_drops)).events
    × (length (returned (run no_drops)).events + (returned (run no_drops)).stats.dropped_events
        ≡ (returned (run no_drops)).stats.generated_events
          + (returned (run no_drops)).stats.duplicated_events)
    × (3 + periodic_events 1_000_000_000 (second_of no_drops).rates
        ≤ (returned (run no_drops)).stats.generated_events)
    × ((returned (run no_drops)).stats.generated_events
        ≤ 4 + periodic_events 1_000_000_000 (second_of no_drops).rates)
    × (periodic_events 1_000_000_000 (second_of no_drops).rates ≤ max_generated_events)
generate-bounds_example =
    generate-bounds steady no_rounding (second_of no_drops) terse tt (returned (run no_drops))
      no_drops-accepted no_drops-runs

generate-no_faults_example :
    (r' : Unit {0}) × (events : List TelemetryEvent) × (base_events steady no_rounding
        (second_of no_faults)
        tt
      ≡ some (r', events))
    × Perm (returned (run no_faults)).events events
    × InTimeOrder (returned (run no_faults)).events
    × ((returned (run no_faults)).stats ≡ counters (length events))
generate-no_faults_example =
    generate-no_faults steady no_rounding (second_of no_faults) terse tt (returned (run no_faults))
      no_faults-accepted refl refl refl no_faults-runs

generate-all_dropped_example :
    ((returned (run all_drops)).events ≡ [])
    × ((returned (run all_drops)).stats.dropped_events
        ≡ (returned (run all_drops)).stats.generated_events)
generate-all_dropped_example =
    generate-all_dropped steady no_rounding (second_of all_drops) terse tt
      (returned (run all_drops)) all_drops-accepted refl all_drops-runs
