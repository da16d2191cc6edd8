-- ===== src/Telemetry/Tests.antt =====
-- Runs of the sink, the validator and the collector.
use trace_forge.Common
use trace_forge.Common.{
  ℕ, ◌≡◌, ◌<◌, refl, arith, Bool, ltb, true, false, none, List, [], ◌∷◌, ◌++◌, length, Bytes,
}
use trace_forge.Common.Int.{ℤ, pos}
use trace_forge.Concurrency.BoundedQueue
use trace_forge.Concurrency.BoundedQueue.{BoundedQueue}
use trace_forge.Telemetry.Event.{TelemetryEvent, Payload, StreamSummary}
use trace_forge.Telemetry.Sink.{
  CollectedEvent, SinkResult, Consumer, Move, pushes, steps, move, consume_step, run_thread,
  take_event, stop_accepting, waiting, QueuedTelemetrySink, push_event,
}
use trace_forge.Telemetry.Sink.Steps.{History}
use trace_forge.Telemetry.Sink.Meanwhile.{accepted_meanwhile}
use trace_forge.Telemetry.Validation.{
  new_validator, accept, validate_header, validate_payload, count_event,
}
use trace_forge.Telemetry.Validation.Stream.{validate_all, IsSummary, validate_all-IsSummary}
use trace_forge.Telemetry.Collector.{TelemetrySink}

abbrev camera_event : ℕ → TelemetryEvent
camera_event n = record {
  schema_version = 1;
  producer_id = 97 ∷ [];
  sequence_number = n;
  source_timestamp_ns = pos 5;
  source_clock = pos 1;
  payload =
      Payload.camera
        (record { frame_number = n; width_pixels = 4; height_pixels = 3; exposure_time_ns = 0 });
}

abbrev collected : ℕ → CollectedEvent
collected n = record { event = camera_event n; collector_arrival_timestamp_ns = pos 9 }

-- A consumer that takes two events.
abbrev two_at_most : Consumer (List CollectedEvent)
two_at_most taken event = (taken ++ event ∷ [], ltb (length taken) 2)

abbrev new_sink : QueuedTelemetrySink (List CollectedEvent)
new_sink = record {
  queue = record {
    capacity = 4;
    items = [];
    high_watermark = 0;
    accepted_items = 0;
    rejected_items = 0;
    is_closed = false;
  };
  consumer = [];
  consumer_thread = waiting;
  consumed_events = 0;
  consumer_failures = 0;
  accepting_events = true;
}

abbrev busy_sink : QueuedTelemetrySink (List CollectedEvent)
busy_sink = record new_sink {
  queue = record (new_sink.queue) {
    items = collected 1 ∷ [];
    high_watermark = 1;
    accepted_items = 1;
  };
}

abbrev busy_history : History
busy_history = record { taken_in = collected 1 ∷ []; offered = []; counted = 0 }

-- The thread takes the event, and two more are pushed behind the store; `late` ones come behind `close`.
abbrev some_moves : List Move
some_moves = pushes (collected 2) ∷ steps ∷ pushes (collected 3) ∷ []

abbrev late_pushes : ℕ → List CollectedEvent
late_pushes k = collected k ∷ []

accepted_two :
    accepted_meanwhile two_at_most (stop_accepting busy_sink) some_moves
    ≡ collected 2 ∷ collected 3 ∷ []
unfolding move consume_step run_thread take_event BoundedQueue.wait_pop push_event
    BoundedQueue.try_push stop_accepting
accepted_two = refl

-- The second event repeats a sequence number.
abbrev some_events : List TelemetryEvent
some_events = camera_event 3 ∷ camera_event 3 ∷ camera_event 7 ∷ []

accepted_events : (validate_all new_validator some_events).1 ≡ camera_event 3 ∷ camera_event 7 ∷ []
unfolding accept validate_header validate_payload count_event trace_forge.Common.bytes_eq
accepted_events = refl

validate_all-IsSummary_example :
    IsSummary (validate_all new_validator some_events).0 (validate_all new_validator some_events).1
validate_all-IsSummary_example =
    validate_all-IsSummary some_events (omega arith, (omega arith, (omega arith, tt))) (omega arith)

-- A sink that keeps the events it takes.
abbrev keeping : TelemetrySink (List CollectedEvent)
keeping taken event = (taken ++ event ∷ [], SinkResult.accepted)

abbrev two_sent : List (TelemetryEvent × ℤ)
two_sent = (camera_event 3, pos 9) ∷ (camera_event 7, pos 10) ∷ []

abbrev two_summary : StreamSummary
two_summary = record {
  producer_id = 97 ∷ [];
  accepted_events = 2;
  first_sequence_number = 3;
  last_sequence_number = 7;
  sequence_gaps = 3;
}
