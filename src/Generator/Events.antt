-- ===== src/Generator/Events.antt =====
-- The events before faults are injected: `base_event`, `append_periodic`, the payloads and
-- `append_controller_events`. The arithmetic of doubles is a parameter.
pub mod Valid
pub mod Controller
use trace_forge.Common.{
  ℕ, zero, suc, ◌+◌, ◌-◌, ◌*◌, ◌/◌, ◌%◌, ◌^◌, Bool, true, false, ltb, if◌then◌else◌, Option, none,
  some, List, [], ◌∷◌, ◌++◌, Bytes, u32_mod,
}
use trace_forge.Common.Int.{ℤ, pos, to_u64, from_u64, eqb_ℤ, ltb_ℤ, ◌+ℤ◌, ◌-ℤ◌, ◌*ℤ◌, ◌/ℤ◌}
use trace_forge.Common.Text.{codes}
use trace_forge.Telemetry.Double.{Double, Arithmetic}
use trace_forge.Telemetry.Event.{
  TelemetryEvent, Payload, clock_domain_utc, state_initializing, state_ready, state_degraded,
  state_stopped, severity_warning, severity_error, severity_critical, telemetry_schema_version,
}
use trace_forge.Generator.{GeneratorConfig, base_timestamp_ns}
use trace_forge.Generator.Random.{Engine, bounded, chance}
use trace_forge.Generator.Schedule.{event_count, scheduled_time_ns, apply_clock_drift}

-- Code that draws random numbers and may throw.
abbrev pub Draws : Type 0 → Type 0 → Type 0
Draws R A = R → Option (R × A)

infixl 5 ◌>>=◌
abbrev pub ◌>>=◌ : {R A B : Type 0} → Draws R A → (A → Draws R B) → Draws R B
◌>>=◌ m f r = elim (m r) [ none ↦ none | some (r', a) ↦ f a r' ]

abbrev pub ret : {R A : Type 0} → A → Draws R A
ret a r = some (r, a)

abbrev pub drawn : {R A : Type 0} → (R → R × A) → Draws R A
drawn f r = some (f r)

abbrev pub fault_message : ℤ → Bytes
fault_message severity =
    if eqb_ℤ severity severity_warning
    then codes "synthetic threshold warning"
    else if eqb_ℤ severity severity_error
    then codes "synthetic sensor error"
    else if eqb_ℤ severity severity_critical
    then codes "synthetic critical fault"
    else codes "synthetic unspecified fault"

-- `ControllerStatus_State_Name` of the states that the generator uses.
abbrev pub state_name : ℤ → Bytes
state_name state =
    if eqb_ℤ state state_initializing
    then codes "STATE_INITIALIZING"
    else if eqb_ℤ state state_ready
    then codes "STATE_READY"
    else if eqb_ℤ state state_degraded
    then codes "STATE_DEGRADED"
    else codes "STATE_STOPPED"

-- `std::max<std::int64_t>(a, 1)`
abbrev pub at_least_one : ℤ → ℤ
at_least_one a = if ltb_ℤ a (pos 1) then pos 1 else a

-- What the callbacks of `generate` set in an event.
abbrev pub Populate : Type 0 → Type 0
Populate R = ℕ → R → R × Payload

module _ {R : Type 0} (engine : Engine R) where
  unfoldable pub sample_jitter : ℤ → Draws R ℤ
  sample_jitter max_jitter_ns r =
      let width = to_u64 (max_jitter_ns *ℤ pos 2 +ℤ pos 1) in
      let (r', value) = bounded engine r width in
      if eqb_ℤ max_jitter_ns (pos 0)
      then some (r, pos 0)
      else if ltb_ℤ (pos ((2 ^ 63 - 2) / 2)) max_jitter_ns
      then none
      else some (r', from_u64 value -ℤ max_jitter_ns)

module _ {R : Type 0} (engine : Engine R) (config : GeneratorConfig) where
  unfoldable pub base_event : Bytes → ℕ → ℤ → Draws R TelemetryEvent
  base_event producer_id sequence_number elapsed_ns = do
    jitter ← sample_jitter engine config.max_jitter
    ret (record {
      schema_version = telemetry_schema_version;
      producer_id = producer_id;
      sequence_number = sequence_number;
      source_timestamp_ns =
          pos base_timestamp_ns +ℤ apply_clock_drift elapsed_ns config.clock_drift_ppm +ℤ jitter;
      source_clock = clock_domain_utc;
      payload = Payload.payload_not_set;
    })

  -- The loop of `append_periodic`, with `left` rounds to go: what it appends.
  unfoldable pub periodic_from : Bytes → ℕ → Populate R → ℕ → ℕ → Draws R (List TelemetryEvent)
  periodic_from producer_id rate_hz populate_payload zero sequence = ret []
  periodic_from producer_id rate_hz populate_payload (suc left) sequence = do
    event ← base_event producer_id sequence (scheduled_time_ns sequence rate_hz)
    payload ← drawn (populate_payload sequence)
    rest ← periodic_from producer_id rate_hz populate_payload left (sequence + 1)
    ret (record event { payload = payload } ∷ rest)

  unfoldable pub append_periodic : Bytes → ℕ → Populate R → Draws R (List TelemetryEvent)
  append_periodic producer_id rate_hz populate_payload =
      periodic_from producer_id rate_hz populate_payload (event_count config.duration rate_hz) 0

  -- The loop of `append_controller_events` over the states.
  unfoldable pub controller_from : ℕ → List (ℤ × ℤ) → Draws R (List TelemetryEvent)
  controller_from sequence [] = ret []
  controller_from sequence ((elapsed_ns, state) ∷ states) = do
    event ← base_event (codes "sim-controller") sequence elapsed_ns
    rest ← controller_from (sequence + 1) states
    ret (
        record event {
          payload = Payload.controller_status (record { state = state; detail = state_name state });
        }
        ∷ rest)

  -- A time that is drawn in an eighth of the duration.
  unfoldable pub draw_eighth : ℤ → R → R × ℤ
  draw_eighth start r =
      let (r', value) = bounded engine r (to_u64 (at_least_one (config.duration /ℤ 8))) in
      (r', start +ℤ from_u64 value)

  unfoldable pub degraded_state : R → R × List (ℤ × ℤ)
  degraded_state r =
      let (r', degraded) = chance engine r 500_000 in
      let (r₂, time) = draw_eighth (config.duration *ℤ pos 5 /ℤ 8) r' in
      if degraded then (r₂, (time, state_degraded) ∷ []) else (r', [])

  unfoldable pub append_controller_events : Draws R (List TelemetryEvent)
  append_controller_events = do
    ready ← drawn (draw_eighth (config.duration /ℤ 4))
    degraded ← drawn degraded_state
    controller_from 0 (
        (pos 0, state_initializing) ∷ (ready, state_ready) ∷ degraded
        ++ (config.duration -ℤ pos 1, state_stopped) ∷ [])
