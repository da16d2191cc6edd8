-- ===== src/Recording/LogConsumer/Tests.antt =====
-- A sink that logs to the small device.
use trace_forge.Common.{ℕ, List, true, false, [], ◌∷◌}
use trace_forge.Common.Int.{pos}
use trace_forge.Concurrency.BoundedQueue
use trace_forge.Telemetry.Sink.{CollectedEvent, QueuedTelemetrySink, Move, pushes, waiting}
use trace_forge.Telemetry.Sink
use trace_forge.Telemetry.Sink.Steps.{History}
use trace_forge.Recording.Writer.{LogWriter}
use trace_forge.Recording.Tests.{sample_event, new_writer}

abbrev sample_collected : CollectedEvent
sample_collected = record { event = sample_event 3; collector_arrival_timestamp_ns = pos 9 }

abbrev idle_sink : QueuedTelemetrySink LogWriter
idle_sink = record {
  queue = record {
    capacity = 2;
    items = [];
    high_watermark = 0;
    accepted_items = 0;
    rejected_items = 0;
    is_closed = false;
  };
  consumer = new_writer;
  consumer_thread = waiting;
  consumed_events = 0;
  consumer_failures = 0;
  accepting_events = true;
}

abbrev one_waiting : QueuedTelemetrySink LogWriter
one_waiting = record idle_sink {
  queue = record (idle_sink.queue) {
    items = sample_collected ∷ [];
    high_watermark = 1;
    accepted_items = 1;
  };
}

abbrev one_accepted : History
one_accepted = record { taken_in = sample_collected ∷ []; offered = []; counted = 0 }

-- One more event is pushed behind the store, and one behind `close`.
abbrev one_more : List Move
one_more = pushes sample_collected ∷ []

abbrev too_late : ℕ → List CollectedEvent
too_late k = sample_collected ∷ []
