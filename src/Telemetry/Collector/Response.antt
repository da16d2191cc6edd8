-- ===== src/Telemetry/Collector/Response.antt =====
-- What the response of a stream says.
use trace_forge.Common.{◌≡◌, List, [], ◌∷◌}
use trace_forge.Common.Int.{ℤ}
use trace_forge.Telemetry.Event.{TelemetryEvent, StreamSummary}
use trace_forge.Telemetry.Sink.{CollectedEvent, SinkResult}
use trace_forge.Telemetry.Validation.{summary}
use trace_forge.Telemetry.Validation.Stream.{validate_all, IsSummary}
use trace_forge.Telemetry.Collector.{TelemetrySink, StreamReactor}

abbrev pub events_of : List (TelemetryEvent × ℤ) → List TelemetryEvent
events_of [] = []
events_of (e ∷ es) = e.0 ∷ events_of es

abbrev pub collect : TelemetryEvent × ℤ → CollectedEvent
collect e = record { event = e.0; collector_arrival_timestamp_ns = e.1 }

module _ {S : Type 0} (try_accept : TelemetrySink S) where
  -- The sink takes these events one after the other, and ends in this state.
  pub data TakesAll : S → List (TelemetryEvent × ℤ) → S → Type 0 where
    none_left : {sink : S} → TakesAll sink [] sink
    takes :
        {sink sink' : S} {e : TelemetryEvent × ℤ} {es : List (TelemetryEvent × ℤ)}
        → (try_accept sink (collect e)).1 ≡ SinkResult.accepted
        → TakesAll (try_accept sink (collect e)).0 es sink'
        → TakesAll sink (e ∷ es) sink'

  -- The run of a reactor that answers OK.
  abbrev AnswersOk :
      StreamReactor S → List (TelemetryEvent × ℤ) → StreamSummary → StreamReactor S → Type 0
  AnswersOk r es s out =
      (validate_all r.validator (events_of es) ≡ (out.validator, events_of es))
      × (s ≡ summary out.validator)
      × TakesAll r.sink es out.sink

  -- The sink took every event in order, each one is valid, and the response sums them up.
  abbrev pub IsAccounted : S → List (TelemetryEvent × ℤ) → StreamSummary → StreamReactor S → Type 0
  IsAccounted sink es s out =
      IsSummary out.validator (events_of es)
      × (s ≡ summary out.validator)
      × TakesAll sink es out.sink
