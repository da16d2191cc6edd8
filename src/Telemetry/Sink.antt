-- ===== src/Telemetry/Sink.antt =====
-- `QueuedTelemetrySink` of src/telemetry/queued_sink.cpp: producers push into the bounded queue, one
-- thread hands the events to the consumer. The atomics are relaxed, but each of them is read and
-- written in single steps; the queue's methods are single steps by its mutex.
pub mod Steps
pub mod Invariant
pub mod Meanwhile
pub mod Shutdown
use trace_forge.Common.{
  ℕ, zero, suc, ◌+◌, ◌%◌, Bool, true, false, if◌then◌else◌, Option, none, some, List, [], ◌∷◌,
  u64_mod,
}
use trace_forge.Common.Int.{ℤ}
use trace_forge.Concurrency.BoundedQueue.{
  BoundedQueue, BoundedQueueStats, QueuePushResult, blocked, finished, popped, try_push, wait_pop,
}
use trace_forge.Concurrency.BoundedQueue
use trace_forge.Telemetry.Event.{TelemetryEvent}

pub record CollectedEvent : Type 0 where
  pub event : TelemetryEvent
  pub collector_arrival_timestamp_ns : ℤ

pub data SinkResult : Type 0 where
  accepted overloaded unavailable : SinkResult

-- A `TelemetryConsumer` with its state.
abbrev pub Consumer : Type 0 → Type 0
Consumer C = C → CollectedEvent → C × Bool

-- Where the thread stands in `consume_loop`: before the wait, before `consume`, before each of the
-- statements that follow it, and past the return.
pub data ConsumerThread : Type 0 where
  waiting : ConsumerThread
  consuming : CollectedEvent → ConsumerThread
  counting failing refusing closing stopped : ConsumerThread

abbrev pub is_stopped : ConsumerThread → Bool
is_stopped stopped = true
is_stopped waiting = false
is_stopped (consuming event) = false
is_stopped counting = false
is_stopped failing = false
is_stopped refusing = false
is_stopped closing = false

pub record IngestionStats : Type 0 where
  pub queue : BoundedQueueStats
  pub consumed_events : ℕ
  pub consumer_failures : ℕ
  pub accepting_events : Bool

pub record QueuedTelemetrySink (C : Type 0) : Type 0 where
  pub queue : BoundedQueue CollectedEvent
  pub consumer : C
  pub consumer_thread : ConsumerThread
  pub consumed_events : ℕ
  pub consumer_failures : ℕ
  pub accepting_events : Bool

abbrev pub sink_result : QueuePushResult → SinkResult
sink_result QueuePushResult.accepted = accepted
sink_result QueuePushResult.full = overloaded
sink_result QueuePushResult.closed = unavailable

-- A statement of another thread: a producer's push or a step of the consumer thread.
pub data Move : Type 0 where
  pushes : CollectedEvent → Move
  steps : Move

module _ {C : Type 0} where
  -- The constructor; `none` where the queue's throws.
  unfoldable pub create : ℕ → C → Option (QueuedTelemetrySink C)
  create capacity consumer = elim (BoundedQueue.create capacity) [
    | none ↦ none
    | some queue ↦ some (record {
      queue = queue;
      consumer = consumer;
      consumer_thread = waiting;
      consumed_events = 0;
      consumer_failures = 0;
      accepting_events = true;
    })
  ]

  -- `try_accept` behind its first test.
  unfoldable pub push_event :
      QueuedTelemetrySink C → CollectedEvent → QueuedTelemetrySink C × SinkResult
  push_event s event =
      (record s { queue = (try_push s.queue event).0 }, sink_result (try_push s.queue event).1)

  unfoldable pub try_accept :
      QueuedTelemetrySink C → CollectedEvent → QueuedTelemetrySink C × SinkResult
  try_accept s event = if s.accepting_events then push_event s event else (s, unavailable)

  -- The two statements of `shutdown` before the join.
  unfoldable pub stop_accepting : QueuedTelemetrySink C → QueuedTelemetrySink C
  stop_accepting s = record s { accepting_events = false }

  unfoldable pub close_queue : QueuedTelemetrySink C → QueuedTelemetrySink C
  close_queue s = record s { queue = BoundedQueue.close s.queue }

  unfoldable pub stats : QueuedTelemetrySink C → IngestionStats
  stats s = record {
    queue = BoundedQueue.stats s.queue;
    consumed_events = s.consumed_events;
    consumer_failures = s.consumer_failures;
    accepting_events = s.accepting_events;
  }

  unfoldable pub take_event : QueuedTelemetrySink C → Option (QueuedTelemetrySink C)
  take_event s = elim (wait_pop s.queue) [
    | blocked ↦ none
    | finished ↦ some (record s { consumer_thread = stopped })
    | popped event queue ↦ some (record s { queue = queue; consumer_thread = consuming event })
  ]

  unfoldable pub hand_over :
      Consumer C → QueuedTelemetrySink C → CollectedEvent → QueuedTelemetrySink C
  hand_over consume s event = record s {
    consumer = (consume s.consumer event).0;
    consumer_thread = if (consume s.consumer event).1 then counting else failing;
  }

  -- One step of `consume_loop`; `none` where the thread waits or has returned.
  unfoldable pub run_thread :
      Consumer C → ConsumerThread → QueuedTelemetrySink C → Option (QueuedTelemetrySink C)
  run_thread consume waiting s = take_event s
  run_thread consume (consuming event) s = some (hand_over consume s event)
  run_thread consume counting s =
      some (record s {
        consumed_events = (s.consumed_events + 1) % u64_mod;
        consumer_thread = waiting;
      })
  run_thread consume failing s = some (record s {
    consumer_failures = (s.consumer_failures + 1) % u64_mod;
    consumer_thread = refusing;
  })
  run_thread consume refusing s = some (record (stop_accepting s) { consumer_thread = closing })
  run_thread consume closing s = some (record (close_queue s) { consumer_thread = stopped })
  run_thread consume stopped s = none

  unfoldable pub consume_step : Consumer C → QueuedTelemetrySink C → Option (QueuedTelemetrySink C)
  consume_step consume s = run_thread consume s.consumer_thread s

  -- Pushes of producers that are past the first test of `try_accept`.
  unfoldable pub push_all : QueuedTelemetrySink C → List CollectedEvent → QueuedTelemetrySink C
  push_all s [] = s
  push_all s (event ∷ events) = push_all (push_event s event).0 events

  -- What another thread does between two statements of `shutdown`: a producer that is past the first test
  -- of `try_accept` pushes, or the consumer thread takes a step if it can.
  unfoldable pub move : Consumer C → Move → QueuedTelemetrySink C → QueuedTelemetrySink C
  move consume (pushes event) s = (push_event s event).0
  move consume steps s = elim (consume_step consume s) [ none ↦ s | some s' ↦ s' ]

  unfoldable pub meanwhile : Consumer C → List Move → QueuedTelemetrySink C → QueuedTelemetrySink C
  meanwhile consume [] s = s
  meanwhile consume (m ∷ moves) s = meanwhile consume moves (move consume m s)

  -- `join`: the thread runs until it returns, and producers push `late k` before its step with k of the fuel
  -- left; `none` if the fuel runs out or the thread waits for ever.
  unfoldable pub join :
      Consumer C
      → (ℕ → List CollectedEvent)
      → ℕ
      → QueuedTelemetrySink C
      → Option (QueuedTelemetrySink C)
  join consume late zero s = none
  join consume late (suc fuel) s = elim (is_stopped s.consumer_thread) [
    | true ↦ some s
    | false ↦ elim (consume_step consume (push_all s (late fuel))) [
      | none ↦ none
      | some s' ↦ join consume late fuel s'
    ]
  ]

  -- `moves` come between the store and `close`.
  unfoldable pub shutdown :
      Consumer C
      → List Move
      → (ℕ → List CollectedEvent)
      → ℕ
      → QueuedTelemetrySink C
      → Option (QueuedTelemetrySink C)
  shutdown consume moves late fuel s =
      join consume late fuel (close_queue (meanwhile consume moves (stop_accepting s)))
