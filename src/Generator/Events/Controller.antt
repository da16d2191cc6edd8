-- ===== src/Generator/Events/Controller.antt =====
-- The events of the controller: they lie within the duration, whatever is drawn.
use trace_forge.Common.{
  ℕ, ◌+◌, ◌-◌, ◌*◌, ◌/◌, ◌≤◌, ◌<◌, ◌≡◌, refl, ap, ◌∙◌, arith, ◌==◌, if◌then◌else◌, some, List, [],
  ◌∷◌, ◌++◌, length, length-append, All-append, All, Bool-cases, inl, inr,
}
use trace_forge.Common.Int.{ℤ, pos, ◌+ℤ◌, ◌-ℤ◌, ◌*ℤ◌, ◌/ℤ◌, to_u64, to_u64-pos, from_u64-lt}
use trace_forge.Common.Text.{codes}
use trace_forge.Telemetry.Event.{
  TelemetryEvent, Payload, state_initializing, state_ready, state_stopped,
}
use trace_forge.Generator.{GeneratorConfig, max_duration_ns}
use trace_forge.Generator.Random.{Engine, bounded, bounded-lt, chance}
use trace_forge.Generator.Config.{IsConfig}
use trace_forge.Generator.Events.{
  base_event, at_least_one, controller_from, draw_eighth, degraded_state, append_controller_events,
  state_name, ◌>>=◌,
}
use trace_forge.Generator.Events.Valid.{Numbered, base_event-IsGenerated}

-- A state within an hour.
abbrev IsTimed : ℤ × ℤ → Type 0
IsTimed (elapsed_ns, state) = (e : ℕ) × (elapsed_ns ≡ pos e) × (e ≤ max_duration_ns)

eighth : (n : ℕ) → at_least_one (pos n /ℤ 8) ≡ pos (if n / 8 == 0 then 1 else n / 8)
unfolding ◌/ℤ◌
eighth n = ground arith

five_eighths : (n : ℕ) → pos n *ℤ pos 5 /ℤ 8 ≡ pos (n * 5 / 8)
unfolding ◌*ℤ◌ ◌/ℤ◌
five_eighths n = ground arith

quarter : (n : ℕ) → pos n /ℤ 4 ≡ pos (n / 4)
unfolding ◌/ℤ◌
quarter n = ground arith

minus_one : (n : ℕ) → 0 < n → pos n -ℤ pos 1 ≡ pos (n - 1)
unfolding ◌-ℤ◌
minus_one n p = ground arith

module _ {R : Type 0} (engine : Engine R) (config : GeneratorConfig) (k : IsConfig config) where
  draw_eighth-pos :
      (start : ℕ) (r : R)
      → start ≤ max_duration_ns
      → (v : ℕ) × ((draw_eighth engine config (pos start) r).1 ≡ pos v)
        × (v < start + k.duration_ns / 8 + 1)
  unfolding draw_eighth ◌+ℤ◌
  draw_eighth-pos start r b =
      let width : ℕ = if k.duration_ns / 8 == 0 then 1 else k.duration_ns / 8 in
      let (low, high) : (0 < width) × (width ≤ k.duration_ns / 8 + 1) =
        (ground arith, ground arith) in
      let small : (bounded engine r width).1 < width =
        bounded-lt engine r width low (omega (arith, k.duration_range)) in
      let same : to_u64 (at_least_one (config.duration /ℤ 8)) ≡ width =
        ap (λ d. to_u64 (at_least_one (d /ℤ 8))) k.is_duration
        ∙ ap to_u64 (eighth k.duration_ns)
        ∙ to_u64-pos width (omega (arith, k.duration_range)) in
      (
        start + (bounded engine r width).1,
        rw (same, from_u64-lt (bounded engine r width).1 (omega (arith, k.duration_range)))
            (ground arith),
        omega arith,
      )

  controller_from-Numbered :
      (sequence : ℕ) (states : List (ℤ × ℤ)) (r : R)
      → All IsTimed states
      → (r' : R) × (events : List TelemetryEvent) × (controller_from engine config sequence states r
          ≡ some (r', events))
        × Numbered (codes "sim-controller") sequence events
        × (length events ≡ length states)
  unfolding controller_from
  controller_from-Numbered sequence [] r h = (r, [], refl, tt, refl)
  controller_from-Numbered sequence ((elapsed_ns, state) ∷ states) r ((e, at, b), h) =
      let (r₁, event, made, ok) =
        base_event-IsGenerated engine config k (codes "sim-controller") sequence e r b in
      let made' : base_event engine config (codes "sim-controller") sequence elapsed_ns r
          ≡ some (r₁, event) =
        ap (λ t. base_event engine config (codes "sim-controller") sequence t r) at ∙ made in
      let (r₂, rest, looped, numbered, counted) =
        controller_from-Numbered (sequence + 1) states r₁ h in
      (
        r₂,
        record event {
          payload = Payload.controller_status (record { state = state; detail = state_name state });
        }
            ∷ rest,
        rw (made', ◌>>=◌) (rw (looped, ◌>>=◌) refl),
        (
          record {
            version = ok.version;
            producer = ok.producer;
            number = ok.number;
            clock = ok.clock;
            stamp = ok.stamp;
          },
          numbered,
        ),
        omega arith,
      )

  degraded_state-IsTimed :
      (r : R)
      → All IsTimed (degraded_state engine config r).1
        × (length (degraded_state engine config r).1 ≤ 1)
  unfolding degraded_state
  degraded_state-IsTimed r =
      let n = k.duration_ns in
      let r' = (chance engine r 500_000).0 in
      let (v, at, below) = draw_eighth-pos (n * 5 / 8) r' (omega (arith, k.duration_range)) in
      let at' : (draw_eighth engine config (config.duration *ℤ pos 5 /ℤ 8) r').1 ≡ pos v =
        ap (λ d. (draw_eighth engine config d r').1)
          (ap (λ d. d *ℤ pos 5 /ℤ 8) k.is_duration ∙ five_eighths n)
        ∙ at in
      elim (Bool-cases (chance engine r 500_000).1) [
        | inl e ↦ rw e (((v, at', omega (arith, k.duration_range)), tt), omega arith)
        | inr e ↦ rw e (tt, omega arith)
      ]

  -- Three or four events, in the order of their sequence numbers.
  pub append_controller_events-Numbered :
      (r : R)
      → (r' : R) × (events : List TelemetryEvent) × (append_controller_events engine config r
          ≡ some (r', events))
        × Numbered (codes "sim-controller") 0 events
        × (3 ≤ length events)
        × (length events ≤ 4)
  unfolding append_controller_events
  append_controller_events-Numbered r =
      let n = k.duration_ns in
      let ready = draw_eighth engine config (config.duration /ℤ 4) r in
      let degraded = degraded_state engine config ready.0 in
      let (v, at, below) = draw_eighth-pos (n / 4) r (omega (arith, k.duration_range)) in
      let at' : ready.1 ≡ pos v =
        ap (λ d. (draw_eighth engine config d r).1) (ap (λ d. d /ℤ 4) k.is_duration ∙ quarter n)
        ∙ at in
      let (timed, one) = degraded_state-IsTimed ready.0 in
      let last : config.duration -ℤ pos 1 ≡ pos (n - 1) =
        ap (λ d. d -ℤ pos 1) k.is_duration ∙ minus_one n k.duration_range.0 in
      let stopped : All IsTimed ((config.duration -ℤ pos 1, state_stopped) ∷ []) =
        ((n - 1, last, omega (arith, k.duration_range)), tt) in
      let states =
        (pos 0, state_initializing) ∷ (ready.1, state_ready) ∷ degraded.1
        ++ (config.duration -ℤ pos 1, state_stopped) ∷ [] in
      let all : All IsTimed states =
        All-append IsTimed ((pos 0, state_initializing) ∷ (ready.1, state_ready) ∷ degraded.1)
          ((config.duration -ℤ pos 1, state_stopped) ∷ [])
          ((0, refl, omega arith), ((v, at', omega (arith, k.duration_range)), timed)) stopped in
      let (r', events, looped, numbered, counted) =
        controller_from-Numbered 0 states degraded.0 all in
      (
        r',
        events,
        looped,
        numbered,
        omega (
          arith,
          length-append ((pos 0, state_initializing) ∷ (ready.1, state_ready) ∷ degraded.1)
              ((config.duration -ℤ pos 1, state_stopped) ∷ []),
        ),
        omega (
          arith,
          length-append ((pos 0, state_initializing) ∷ (ready.1, state_ready) ∷ degraded.1)
              ((config.duration -ℤ pos 1, state_stopped) ∷ []),
        ),
      )
