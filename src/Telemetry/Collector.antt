-- ===== src/Telemetry/Collector.antt =====
-- `StreamReactor` of src/telemetry/collector_service.cpp, which handles one stream of a client: each call
-- of `OnReadDone` is a step. gRPC and the clock are outside; the sink is any state with its `try_accept`.
pub mod Response
use trace_forge.Common.{
  ℕ, ◌≡◌, Bool, true, false, if◌then◌else◌, Option, none, some, List, [], ◌∷◌, ◌++◌,
}
use trace_forge.Common.Int.{ℤ}
use trace_forge.Telemetry.Event.{TelemetryEvent, StreamSummary}
use trace_forge.Telemetry.Sink.{CollectedEvent, SinkResult}
use trace_forge.Telemetry.Validation.{
  Rejection, ValidationResult, valid, reject, StreamValidator, new_validator, accept, summary,
}

-- A `TelemetrySink` with its state.
abbrev pub TelemetrySink : Type 0 → Type 0
TelemetrySink S = S → CollectedEvent → S × SinkResult

-- What `Finish` is called with.
pub data Status : Type 0 where
  ok : StreamSummary → Status
  invalid_argument : Rejection → Status
  resource_exhausted unavailable : Status

-- The reactor, which has called `StartRead` or, with a status, `Finish`.
pub record StreamReactor (S : Type 0) : Type 0 where
  pub sink : S
  pub validator : StreamValidator
  pub status : Option Status

abbrev pub unless_finished :
    {S : Type 0} → Option Status → StreamReactor S → StreamReactor S → StreamReactor S
unless_finished (some status) r rest = r
unless_finished none r rest = rest

module _ {S : Type 0} (try_accept : TelemetrySink S) where
  abbrev pub stream_telemetry : S → StreamReactor S
  stream_telemetry sink = record { sink = sink; validator = new_validator; status = none }

  -- `OnReadDone` behind the validation.
  unfoldable pub offer : StreamReactor S → CollectedEvent → StreamReactor S
  offer r collected = record r {
    sink = (try_accept r.sink collected).0;
    status = elim (try_accept r.sink collected).1 [
      | SinkResult.accepted ↦ none
      | SinkResult.overloaded ↦ some resource_exhausted
      | SinkResult.unavailable ↦ some unavailable
    ];
  }

  -- `OnReadDone`: `none` for a read that failed, else the event and the time of its arrival.
  unfoldable pub on_read_done : StreamReactor S → Option (TelemetryEvent × ℤ) → StreamReactor S
  on_read_done r none = record r { status = some (ok (summary r.validator)) }
  on_read_done r (some (event, now)) =
      let validator = (accept r.validator event).0 in
      let collected : CollectedEvent = record {
        event = event;
        collector_arrival_timestamp_ns = now;
      } in
      elim (accept r.validator event).1 [
        | reject reason ↦ record r {
          validator = validator;
          status = some (invalid_argument reason);
        }
        | valid ↦ offer (record r { validator = validator }) collected
      ]

  -- A stream that sends these events and ends, as long as the reactor reads on.
  unfoldable pub run_stream : StreamReactor S → List (TelemetryEvent × ℤ) → StreamReactor S
  run_stream r [] = on_read_done r none
  run_stream r (e ∷ events) =
      let r' = on_read_done r (some e) in unless_finished r'.status r' (run_stream r' events)
