-- ===== src/Telemetry/Sink/Shutdown.antt =====
-- What `shutdown` leaves behind: it closes the queue and joins the thread, which takes all that waits.
use trace_forge.Common.{ℕ, ◌+◌, ◌*◌, ◌<◌, ◌≡◌, ◌⊎◌, true, some, ◌++◌, List, length}
use trace_forge.Concurrency.BoundedQueue.{
  BoundedQueue, PopResult, blocked, finished, popped, try_push,
}
use trace_forge.Concurrency.BoundedQueue
use trace_forge.Telemetry.Sink.{
  CollectedEvent, Move, Consumer, ConsumerThread, waiting, consuming, counting, failing, refusing,
  closing, stopped, QueuedTelemetrySink, stop_accepting, run_thread, join, shutdown,
}
use trace_forge.Telemetry.Sink.Steps.{History, Reach, IsDelivered, IsRefusing}
use trace_forge.Telemetry.Sink.Meanwhile.{accepted_meanwhile}

-- The steps that the thread still takes, at most.
abbrev steps_left : ConsumerThread → ℕ
steps_left waiting = 1
steps_left (consuming event) = 4
steps_left counting = 2
steps_left failing = 3
steps_left refusing = 2
steps_left closing = 1
steps_left stopped = 0

module _ {C : Type 0} (consume : Consumer C) where
  -- A step of the thread, and that it brings a thread whose queue is closed nearer to its end.
  abbrev StepsDown : ConsumerThread → QueuedTelemetrySink C → Type 0
  StepsDown t s =
      (s' : QueuedTelemetrySink C) × (run_thread consume t s ≡ some s')
      × (s'.queue.is_closed ≡ true)
      × (steps_left s'.consumer_thread + 4 * length s'.queue.items
          < steps_left t + 4 * length s.queue.items)

  -- The thread of such a sink has ended, in a state that is reached with nothing more accepted.
  abbrev pub EndsFrom :
      ℕ → C → (ℕ → List CollectedEvent) → ℕ → QueuedTelemetrySink C → List CollectedEvent → Type 0
  EndsFrom capacity initial late fuel s taken_in =
      (s' : QueuedTelemetrySink C) × (h' : History) × (join consume late fuel s ≡ some s')
      × Reach consume capacity initial s' h'
      × (h'.taken_in ≡ taken_in)
      × (s'.consumer_thread ≡ stopped)

  -- `shutdown` returns; what was accepted before the queue was closed, and nothing else, is in the history, and
  -- then the thread has failed or all was delivered.
  abbrev pub ShutsDown :
      C → List Move → (ℕ → List CollectedEvent) → ℕ → QueuedTelemetrySink C → History → Type 0
  ShutsDown initial moves late fuel s h =
      (s' : QueuedTelemetrySink C) × (h' : History) × (shutdown consume moves late fuel s ≡ some s')
      × (h'.taken_in ≡ h.taken_in ++ accepted_meanwhile consume (stop_accepting s) moves)
      × ((s'.consumer_failures ≡ 0) × IsDelivered consume initial s' h'
          ⊎ (s'.consumer_failures ≡ 1) × IsRefusing consume initial s' h')
