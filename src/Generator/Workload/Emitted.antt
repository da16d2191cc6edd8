-- ===== src/Generator/Workload/Emitted.antt =====
-- What `generate` returns.
use mathlib.Core.List.{Perm}
use trace_forge.Common.{
  ℕ, ◌+◌, ◌≤◌, ◌<◌, ◌≡◌, ◌⊎◌, Bool-cases, refl, sym, ap, ◌∙◌, subst, arith, true, false, none, some,
  List, [], ◌∷◌, length, All, Bytes, u64_mod, Option-cases, inl, inr,
}
use trace_forge.Common.Int.{pos_part, ltb_ℤ, ◌<ℤ◌}
use trace_forge.Common.Map.{bytes_lt-IsOrder}
use trace_forge.Common.Sort.{
  bytes_lt, bytes_lt-asym, sort_by, sort_by-Perm, sort_by-All, sort_by-length, Sorted,
  sort_by-Sorted,
}
use trace_forge.Telemetry.Double.{Arithmetic}
use trace_forge.Telemetry.Event.{TelemetryEvent, Protobuf}
use trace_forge.Generator.{
  GeneratorConfig, GenerationStats, GeneratedWorkload, max_generated_events, probability_scale,
}
use trace_forge.Generator.Random.{Engine}
use trace_forge.Generator.Config.{IsConfig, validate_config, validate_config-IsConfig}
use trace_forge.Generator.Faults.{inject, reorder}
use trace_forge.Generator.Faults.Bounds.{
  inject-counts, inject-All, reorder-Perm, reorder-All, reorder-length, inject-none, reorder-none,
  inject-all_dropped,
}
use trace_forge.Generator.Hash.{hash_events, hash_encoded, hash_size, stable_event_hash}
use trace_forge.Generator.Workload.{base_events, emit, generate, precedes}
use trace_forge.Generator.Workload.Base.{
  IsBase, IsTelemetry, periodic_events, periodic_events-le, base_events-IsBase,
}

-- Protobuf serializes every event, as it does below its limit of 2 GiB.
abbrev pub Serializes : Protobuf → Type 0
Serializes p = (e : TelemetryEvent) → (bytes : Bytes) × (p.serialize e ≡ some bytes)

hash_events-returns :
    (p : Protobuf) (hash : ℕ) (events : List TelemetryEvent)
    → Serializes p
    → (out : ℕ) × (hash_events p hash events ≡ some out)
unfolding hash_events
hash_events-returns p hash [] s = (hash, refl)
hash_events-returns p hash (event ∷ events) s =
    let (encoded, e) = s event in
    let (out, h) =
      hash_events-returns p (hash_encoded (hash_size 8 hash (length encoded)) encoded) events s in
    (out, rw (e, hash_events) h)

abbrev pub counters : ℕ → GenerationStats
counters n = record {
  generated_events = n;
  dropped_events = 0;
  duplicated_events = 0;
  reordered_pairs = 0;
}

empty_of : (es : List TelemetryEvent) → length es ≡ 0 → es ≡ []
empty_of [] h = refl
empty_of (e ∷ es) h = absurd (omega (arith, h))

-- No event comes before one that comes before it.
precedes-asym : (a b : TelemetryEvent) → precedes a b ≡ true → precedes b a ≡ false
precedes-asym a b h =
    ground
      (arith, bytes_lt-asym a.producer_id b.producer_id, bytes_lt-asym b.producer_id a.producer_id)

-- Events by their times, those of one time by their producers' names, those of one producer by their numbers.
abbrev pub NotAfter : TelemetryEvent → TelemetryEvent → Type 0
NotAfter a b =
    (a.source_timestamp_ns <ℤ b.source_timestamp_ns)
    ⊎ (a.source_timestamp_ns ≡ b.source_timestamp_ns)
      × ((bytes_lt a.producer_id b.producer_id ≡ true)
          ⊎ (a.producer_id ≡ b.producer_id) × (a.sequence_number ≤ b.sequence_number))

abbrev pub InTimeOrder : List TelemetryEvent → Type 0
InTimeOrder [] = Unit
InTimeOrder (a ∷ []) = Unit
InTimeOrder (a ∷ b ∷ rest) = NotAfter a b × InTimeOrder (b ∷ rest)

same_producer :
    (a b : TelemetryEvent)
    → a.source_timestamp_ns ≡ b.source_timestamp_ns
    → precedes b a ≡ false
    → bytes_lt a.producer_id b.producer_id ≡ false
    → (bytes_lt b.producer_id a.producer_id ≡ false) × (a.sequence_number ≤ b.sequence_number)
same_producer a b same h e = ground (arith, same, h, e)

precedes-NotAfter : (a b : TelemetryEvent) → precedes b a ≡ false → NotAfter a b
precedes-NotAfter a b h = elim (Bool-cases (ltb_ℤ a.source_timestamp_ns b.source_timestamp_ns)) [
  | inl e ↦ inl (ground (arith, e))
  | inr e ↦
      let same : a.source_timestamp_ns ≡ b.source_timestamp_ns = ground (arith, h, e) in
      elim (Bool-cases (bytes_lt a.producer_id b.producer_id)) [
        | inl before ↦ inr (same, inl before)
        | inr e' ↦
            let (e2, numbers) = same_producer a b same h e' in
            inr (same, inr (bytes_lt-IsOrder.total a.producer_id b.producer_id e' e2, numbers))
      ]
]

Sorted-InTimeOrder : (es : List TelemetryEvent) → Sorted precedes es → InTimeOrder es
Sorted-InTimeOrder [] h = tt
Sorted-InTimeOrder (a ∷ []) h = tt
Sorted-InTimeOrder (a ∷ b ∷ rest) (h, hs) =
    (precedes-NotAfter a b h, Sorted-InTimeOrder (b ∷ rest) hs)

module _ {R : Type 0} (engine : Engine R) (arithmetic : Arithmetic) (config : GeneratorConfig) where
  -- The events and the counters after the first loop, and after the second.
  abbrev injected : List TelemetryEvent → R → R × GenerationStats × List TelemetryEvent
  injected events r =
      inject engine config.faults (counters (length (sort_by precedes events)))
        (sort_by precedes events) r

  abbrev emitted : List TelemetryEvent → R → R × GenerationStats × List TelemetryEvent
  emitted events r =
      reorder engine config.faults (injected events r).1 (injected events r).2 (injected events r).0

  emit-inv :
      (p : Protobuf) (events : List TelemetryEvent) (r : R) (w : GeneratedWorkload)
      → emit engine arithmetic config p events r ≡ some w
      → (w.events ≡ (emitted events r).2)
        × (w.stats ≡ (emitted events r).1)
        × (stable_event_hash p w.events ≡ some w.hash)
  unfolding emit
  emit-inv p events r w h = elim (Option-cases (stable_event_hash p (emitted events r).2)) [
    | inl e ↦ absurd (ground (arith, h))
    | inr (hash, e) ↦ ground (arith, h, e)
  ]

  emit-returns :
      (p : Protobuf) (events : List TelemetryEvent) (r : R)
      → Serializes p
      → (w : GeneratedWorkload) × (emit engine arithmetic config p events r ≡ some w)
  unfolding emit stable_event_hash
  emit-returns p events r s =
      let (hash, e) = hash_events-returns p 14_695_981_039_346_656_037 (emitted events r).2 s in
      let w : GeneratedWorkload = record {
        events = (emitted events r).2;
        stats = (emitted events r).1;
        hash = hash;
      } in
      (w, rw (e, emit) refl)

  -- For every configuration that the constructor accepts, `generate` ends without an exception,
  -- whatever the engine draws. Condition: Protobuf serializes every event.
  pub generate-returns :
      (p : Protobuf) (r : R)
      → validate_config config ≡ none
      → Serializes p
      → (w : GeneratedWorkload) × (generate engine arithmetic config p r ≡ some w)
  unfolding generate
  generate-returns p r c s =
      let k = validate_config-IsConfig config c in
      let (r', events, e, _) = base_events-IsBase engine arithmetic config k r in
      let (w, h) = emit-returns p events r' s in (w, rw (e, generate) h)

  generate-inv :
      (p : Protobuf) (r : R) (w : GeneratedWorkload) (k : IsConfig config)
      → generate engine arithmetic config p r ≡ some w
      → (r' : R) × (events : List TelemetryEvent) × (base_events engine arithmetic config r
          ≡ some (r', events))
        × IsBase engine arithmetic config k events
        × (emit engine arithmetic config p events r' ≡ some w)
  unfolding generate
  generate-inv p r w k h =
      let (r', events, e, base) = base_events-IsBase engine arithmetic config k r in
      (r', events, e, base, ground (arith, h, e))

  emitted-counts :
      (events : List TelemetryEvent) (r : R)
      → length events < u64_mod
      → (length (emitted events r).2 + (emitted events r).1.dropped_events
          ≡ length events + (emitted events r).1.duplicated_events)
        × ((emitted events r).1.generated_events ≡ length events)
  emitted-counts events r b =
      let sorted = sort_by-length precedes events in
      let (total, generated, _, _) =
        inject-counts engine config.faults (counters (length (sort_by precedes events)))
          (sort_by precedes events) r (omega (arith, sorted)) (omega (arith, sorted)) in
      let (_, dropped, duplicated, generated') =
        reorder-Perm engine config.faults (injected events r).1 (injected events r).2
          (injected events r).0 in
      let same =
        reorder-length engine config.faults (injected events r).1 (injected events r).2
          (injected events r).0 in
      (omega (arith, sorted, total, dropped, duplicated, same), generated' ∙ generated ∙ sorted)

  emitted-All :
      (P : TelemetryEvent → Type 0) (events : List TelemetryEvent) (r : R)
      → All P events
      → All P (emitted events r).2
  emitted-All P events r h =
      reorder-All engine config.faults P (injected events r).1 (injected events r).2
        (injected events r).0
        (inject-All engine config.faults P (counters (length (sort_by precedes events)))
          (sort_by precedes events) r (sort_by-All precedes P events h))

  -- For a configuration that the constructor accepts, whatever the engine draws: every event that
  -- `generate` returns has the schema version 1, the UTC clock and a source time between one hour
  -- before and three hours after the base time; the number of returned events and of dropped ones
  -- add up to those of generated and of duplicated ones; and the generated events are three or
  -- four more than the rates give in the duration, which are 2000000 at most.
  pub generate-bounds :
      (p : Protobuf) (r : R) (w : GeneratedWorkload)
      → validate_config config ≡ none
      → generate engine arithmetic config p r ≡ some w
      → All IsTelemetry w.events
        × (length w.events + w.stats.dropped_events
            ≡ w.stats.generated_events + w.stats.duplicated_events)
        × (3 + periodic_events (pos_part config.duration) config.rates ≤ w.stats.generated_events)
        × (w.stats.generated_events ≤ 4 + periodic_events (pos_part config.duration) config.rates)
        × (periodic_events (pos_part config.duration) config.rates ≤ max_generated_events)
  generate-bounds p r w c h =
      let k = validate_config-IsConfig config c in
      let (r', events, e, (valid, low, high), h') = generate-inv p r w k h in
      let (same, stats, _) = emit-inv p events r' w h' in
      let few = periodic_events-le k.duration_ns config.rates k.few_events in
      let (total, generated) = emitted-counts events r' (omega (arith, few, high)) in
      let duration : pos_part config.duration ≡ k.duration_ns = ap pos_part k.is_duration in
      rw (same, stats, duration)
        (
          emitted-All IsTelemetry events r' valid,
          omega (arith, total, generated),
          omega (arith, generated, low),
          omega (arith, generated, high),
          few,
        )

  -- With an accepted configuration whose three fault probabilities are 0, the events that
  -- `generate` returns are a permutation of those that the sensors and the controller append, in
  -- order of their source time, at the same time in order of the producer's name and for the same
  -- producer in order of the sequence number, and the counters report their number and no fault.
  pub generate-no_faults :
      (p : Protobuf) (r : R) (w : GeneratedWorkload)
      → validate_config config ≡ none
      → config.faults.drop_per_million ≡ 0
      → config.faults.duplicate_per_million ≡ 0
      → config.faults.reorder_per_million ≡ 0
      → generate engine arithmetic config p r ≡ some w
      → (r' : R) × (events : List TelemetryEvent) × (base_events engine arithmetic config r
          ≡ some (r', events))
        × Perm w.events events
        × InTimeOrder w.events
        × (w.stats ≡ counters (length events))
  generate-no_faults p r w c drop duplicate swap h =
      let k = validate_config-IsConfig config c in
      let (r', events, e, _, h') = generate-inv p r w k h in
      let (same, stats, _) = emit-inv p events r' w h' in
      let (kept, counted) =
        inject-none engine config.faults (counters (length (sort_by precedes events)))
          (sort_by precedes events) r' drop duplicate in
      let (kept', counted') =
        reorder-none engine config.faults (injected events r').1 (injected events r').2
          (injected events r').0 swap in
      let all : w.events ≡ sort_by precedes events = same ∙ kept' ∙ kept in
      (
        r',
        events,
        e,
        subst (λ es. Perm es events) (sym all) (sort_by-Perm precedes events),
        subst InTimeOrder (sym all) (
            Sorted-InTimeOrder (sort_by precedes events)
              (sort_by-Sorted precedes events precedes-asym)),
        stats ∙ counted' ∙ counted ∙ ap counters (sort_by-length precedes events),
      )

  -- With an accepted configuration whose drop probability is a million in a million, `generate`
  -- returns no event and counts every generated event as dropped.
  pub generate-all_dropped :
      (p : Protobuf) (r : R) (w : GeneratedWorkload)
      → validate_config config ≡ none
      → config.faults.drop_per_million ≡ probability_scale
      → generate engine arithmetic config p r ≡ some w
      → (w.events ≡ []) × (w.stats.dropped_events ≡ w.stats.generated_events)
  generate-all_dropped p r w c drop h =
      let k = validate_config-IsConfig config c in
      let (r', events, e, _, h') = generate-inv p r w k h in
      let (same, stats, _) = emit-inv p events r' w h' in
      let sorted = sort_by precedes events in
      let (none_left, unduplicated) =
        inject-all_dropped engine config.faults (counters (length sorted)) sorted r' drop in
      let same_length =
        reorder-length engine config.faults (injected events r').1 (injected events r').2
          (injected events r').0 in
      let (_, _, duplicated, _) =
        reorder-Perm engine config.faults (injected events r').1 (injected events r').2
          (injected events r').0 in
      let empty : length w.events ≡ 0 = ap length same ∙ same_length ∙ ap length none_left in
      let (_, total, _, _, _) = generate-bounds p r w c h in
      let never : w.stats.duplicated_events ≡ 0 =
        ap (λ (s : GenerationStats). s.duplicated_events) stats ∙ duplicated ∙ unduplicated in
      (empty_of w.events empty, omega (arith, empty, total, never))
