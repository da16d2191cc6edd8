-- ===== src/Generator/Events/Valid.antt =====
-- The events that an accepted configuration generates.
use native.Mathlib.Nat.{mul-le-mul}
use trace_forge.Common.{
  ℕ, zero, suc, ◌+◌, ◌*◌, ◌/◌, ◌≤◌, ◌<◌, ◌≡◌, ◌⊎◌, refl, ap, ◌∙◌, arith, some, List, [], ◌∷◌,
  length, Bytes, inl, inr,
}
use trace_forge.Common.Int.{ℤ, pos, pos_part, neg_part, ◌+ℤ◌, ◌-ℤ◌, ◌*ℤ◌, to_u64-pos, from_u64-lt}
use trace_forge.Telemetry.Event.{TelemetryEvent, Payload, clock_domain_utc}
use trace_forge.Generator.{
  GeneratorConfig, base_timestamp_ns, max_duration_ns, max_sensor_rate_hz, nanoseconds_per_second,
}
use trace_forge.Generator.Random.{Engine, bounded, bounded-lt}
use trace_forge.Generator.Config.{IsConfig}
use trace_forge.Generator.Schedule.{
  event_count, scheduled_time_ns, apply_clock_drift, apply_clock_drift-bounds, event_count_lem,
  scheduled_time_ns_lem, scheduled_within,
}
use trace_forge.Generator.Events.{
  Populate, sample_jitter, base_event, periodic_from, append_periodic, ◌>>=◌,
}

-- The source time is positive and far inside int64_t.
abbrev pub IsStamp : ℤ → Type 0
IsStamp t =
    (n : ℕ) × (t ≡ pos n)
    × (base_timestamp_ns ≤ n + max_duration_ns)
    × (n ≤ base_timestamp_ns + 3 * max_duration_ns)

pub record IsGenerated (producer_id : Bytes) (sequence : ℕ) (e : TelemetryEvent) : Type 0 where
  pub version : e.schema_version ≡ 1
  pub producer : e.producer_id ≡ producer_id
  pub number : e.sequence_number ≡ sequence
  pub clock : e.source_clock ≡ clock_domain_utc
  pub stamp : IsStamp e.source_timestamp_ns

twice : (j : ℕ) → pos j *ℤ pos 2 +ℤ pos 1 ≡ pos (2 * j + 1)
unfolding ◌*ℤ◌ ◌+ℤ◌
twice j = ground arith

minus-bounds :
    (a b : ℕ) → a ≤ 2 * b → (pos_part (pos a -ℤ pos b) ≤ b) × (neg_part (pos a -ℤ pos b) ≤ b)
unfolding ◌-ℤ◌
minus-bounds a b h = ground arith

stamped :
    (t j : ℤ)
    → neg_part t ≡ 0
    → pos_part t ≤ 2 * max_duration_ns
    → pos_part j ≤ max_duration_ns
    → neg_part j ≤ max_duration_ns
    → IsStamp (pos base_timestamp_ns +ℤ t +ℤ j)
unfolding ◌+ℤ◌
stamped t j a b c d =
    (pos_part (pos base_timestamp_ns +ℤ t +ℤ j), ground arith, ground arith, ground arith)

-- The rounds from a sequence number on.
abbrev pub Numbered : Bytes → ℕ → List TelemetryEvent → Type 0
Numbered producer_id sequence [] = Unit
Numbered producer_id sequence (e ∷ es) =
    IsGenerated producer_id sequence e × Numbered producer_id (sequence + 1) es

zero-or-pos : (n : ℕ) → (n ≡ 0) ⊎ (0 < n)
zero-or-pos zero = inl refl
zero-or-pos (suc n) = inr (omega arith)

module _ {R : Type 0} (engine : Engine R) (config : GeneratorConfig) (k : IsConfig config) where
  sample_jitter-pos :
      (j : ℕ) (r : R)
      → j ≤ max_duration_ns
      → (r' : R) × (jitter : ℤ) × (sample_jitter engine (pos j) r ≡ some (r', jitter))
        × (pos_part jitter ≤ j)
        × (neg_part jitter ≤ j)
  unfolding sample_jitter
  sample_jitter-pos zero r b = (r, pos 0, refl, omega arith, omega arith)
  sample_jitter-pos (suc j) r b =
      let width = 2 * suc j + 1 in
      let small : (bounded engine r width).1 < width =
        bounded-lt engine r width (omega arith) (omega arith) in
      (
        (bounded engine r width).0,
        pos (bounded engine r width).1 -ℤ pos (suc j),
        rw
            (
              twice (suc j),
              to_u64-pos width (omega arith),
              from_u64-lt (bounded engine r width).1 (omega arith),
            )
            (ground arith),
        (minus-bounds _ (suc j) (omega arith)).0,
        (minus-bounds _ (suc j) (omega arith)).1,
      )

  -- One event, at a time within the duration.
  pub base_event-IsGenerated :
      (producer_id : Bytes) (sequence e : ℕ) (r : R)
      → e ≤ max_duration_ns
      → (r' : R) × (event : TelemetryEvent) × (base_event engine config producer_id sequence
            (pos e)
            r
          ≡ some (r', event))
        × IsGenerated producer_id sequence event
  unfolding base_event
  base_event-IsGenerated producer_id sequence e r b =
      let (r', jitter, drew, above, below) = sample_jitter-pos k.jitter_ns r k.jitter_range in
      let (drift, drift_le) =
        apply_clock_drift-bounds e config.clock_drift_ppm k.drift_range.0 k.drift_range.1 in
      let event : TelemetryEvent = record {
        schema_version = 1;
        producer_id = producer_id;
        sequence_number = sequence;
        source_timestamp_ns =
            pos base_timestamp_ns +ℤ apply_clock_drift (pos e) config.clock_drift_ppm +ℤ jitter;
        source_clock = clock_domain_utc;
        payload = Payload.payload_not_set;
      } in
      (
        r',
        event,
        rw (ap (λ m. sample_jitter engine m r) k.is_jitter ∙ drew, ◌>>=◌) refl,
        record {
          version = refl;
          producer = refl;
          number = refl;
          clock = refl;
          stamp =
              stamped _ jitter drift (omega arith) (omega (arith, k.jitter_range))
                (omega (arith, k.jitter_range));
        },
      )

  periodic_from-Numbered :
      (producer_id : Bytes) (rate : ℕ) (populate : Populate R) (left sequence : ℕ) (r : R)
      → 0 < rate
      → rate ≤ max_sensor_rate_hz
      → sequence + left ≤ k.duration_ns * rate / nanoseconds_per_second
      → (r' : R) × (events : List TelemetryEvent) × (periodic_from engine config producer_id rate
            populate left sequence r
          ≡ some (r', events))
        × Numbered producer_id sequence events
        × (length events ≡ left)
  unfolding periodic_from
  periodic_from-Numbered producer_id rate populate zero sequence r p b c = (r, [], refl, tt, refl)
  periodic_from-Numbered producer_id rate populate (suc left) sequence r p b c =
      let time : sequence * nanoseconds_per_second / rate < k.duration_ns =
        scheduled_within k.duration_ns rate sequence p (omega arith) in
      let early : sequence < 3_600 * 10_000 = omega (arith, mul-le-mul k.duration_range.1 b) in
      let (r₁, event, made, ok) =
        base_event-IsGenerated producer_id sequence (sequence * nanoseconds_per_second / rate) r
          (omega (arith, k.duration_range)) in
      let at_time : base_event engine config producer_id sequence (scheduled_time_ns sequence rate)
            r
          ≡ some (r₁, event) =
        ap (λ t. base_event engine config producer_id sequence t r)
          (scheduled_time_ns_lem sequence rate p b early)
        ∙ made in
      let (r₂, payload) = populate sequence r₁ in
      let (r₃, rest, looped, numbered, counted) =
        periodic_from-Numbered producer_id rate populate left (sequence + 1) r₂ p b (omega arith) in
      (
        r₃,
        record event { payload = payload } ∷ rest,
        rw (at_time, ◌>>=◌) (rw (looped, ◌>>=◌) refl),
        (
          record {
            version = ok.version;
            producer = ok.producer;
            number = ok.number;
            clock = ok.clock;
            stamp = ok.stamp;
          },
          numbered,
        ),
        omega arith,
      )

  -- All rounds of a producer.
  pub append_periodic-Numbered :
      (producer_id : Bytes) (rate : ℕ) (populate : Populate R) (r : R)
      → rate ≤ max_sensor_rate_hz
      → (r' : R) × (events : List TelemetryEvent) × (append_periodic engine config producer_id rate
            populate r
          ≡ some (r', events))
        × Numbered producer_id 0 events
        × (length events ≡ k.duration_ns * rate / nanoseconds_per_second)
  unfolding append_periodic periodic_from
  append_periodic-Numbered producer_id rate populate r b =
      let count : event_count config.duration rate ≡ k.duration_ns * rate / nanoseconds_per_second =
        ap (λ d. event_count d rate) k.is_duration
        ∙ event_count_lem k.duration_ns rate k.duration_range.1 b in
      elim (zero-or-pos rate) [
        | inl z ↦
            let nothing : k.duration_ns * rate / nanoseconds_per_second ≡ 0 = rw z (omega arith) in
            (r, [], rw (count ∙ nothing) refl, tt, omega arith)
        | inr p ↦
            let (r', events, looped, numbered, counted) =
              periodic_from-Numbered producer_id rate populate
                (k.duration_ns * rate / nanoseconds_per_second) 0 r p b (omega arith) in
            (
              r',
              events,
              ap (λ n. periodic_from engine config producer_id rate populate n 0 r) count ∙ looped,
              numbered,
              counted,
            )
      ]
