-- ===== src/Telemetry/Sink/Steps.antt =====
-- The sink under any interleaving of producers, its consumer thread and `shutdown`, against the history
-- of the events that were accepted and of those that were handed to the consumer.
use trace_forge.Common.{
  ℕ, ◌+◌, ◌%◌, ◌≡◌, ◌⊎◌, refl, arith, Bool, true, false, ◌&&◌, some, List, [], ◌∷◌, ◌++◌, length,
  u64_mod,
}
use trace_forge.Telemetry.Sink.{
  CollectedEvent, SinkResult, Consumer, ConsumerThread, waiting, consuming, counting, failing,
  refusing, closing, stopped, QueuedTelemetrySink, create, push_event, stop_accepting, close_queue,
  consume_step,
}

-- The events that were accepted and those that `consume` was called with, in order.
pub record History : Type 0 where
  pub taken_in : List CollectedEvent
  pub offered : List CollectedEvent
  pub counted : ℕ

abbrev pub no_history : History
no_history = record { taken_in = []; offered = []; counted = 0 }

abbrev pub accept_history : History → CollectedEvent → SinkResult → History
accept_history h event SinkResult.accepted = record h { taken_in = h.taken_in ++ event ∷ [] }
accept_history h event SinkResult.overloaded = h
accept_history h event SinkResult.unavailable = h

pub accept_history-offered :
    (h : History) (event : CollectedEvent) (r : SinkResult)
    → ((accept_history h event r).offered ≡ h.offered)
      × ((accept_history h event r).counted ≡ h.counted)
accept_history-offered h event SinkResult.accepted = (refl, refl)
accept_history-offered h event SinkResult.overloaded = (refl, refl)
accept_history-offered h event SinkResult.unavailable = (refl, refl)

-- What a step of the consumer thread adds, by where the thread stands.
abbrev pub thread_history : History → ConsumerThread → History
thread_history h waiting = h
thread_history h (consuming event) = record h { offered = h.offered ++ event ∷ [] }
thread_history h counting = record h { counted = h.counted + 1 }
thread_history h failing = h
thread_history h refusing = h
thread_history h closing = h
thread_history h stopped = h

module _ {C : Type 0} (consume : Consumer C) where
  -- A producer that read `accepting_events` earlier may push at any time, so the push is a step by itself.
  pub data Step (s : QueuedTelemetrySink C) (h : History)
      : QueuedTelemetrySink C → History → Type 0 where
    accepts :
        (event : CollectedEvent)
        → Step s h (push_event s event).0 (accept_history h event (push_event s event).1)
    consumes :
        (s' : QueuedTelemetrySink C)
        → consume_step consume s ≡ some s'
        → Step s h s' (thread_history h s.consumer_thread)
    stops : Step s h (stop_accepting s) h
    closes : Step s h (close_queue s) h

  pub data Reach (capacity : ℕ) (initial : C) : QueuedTelemetrySink C → History → Type 0 where
    new :
        (s : QueuedTelemetrySink C)
        → create capacity initial ≡ some s
        → Reach capacity initial s no_history
    next :
        {s s' : QueuedTelemetrySink C} {h h' : History}
        → Reach capacity initial s h
        → Step s h s' h'
        → Reach capacity initial s' h'

  -- The consumer after a list of events, and whether it took them all.
  abbrev pub feed : C → List CollectedEvent → C
  feed c [] = c
  feed c (e ∷ es) = feed (consume c e).0 es

  abbrev pub takes_all : C → List CollectedEvent → Bool
  takes_all c [] = true
  takes_all c (e ∷ es) = (consume c e).1 && takes_all (consume c e).0 es

  pub feed-append :
      (c : C) (es : List CollectedEvent) (e : CollectedEvent)
      → feed c (es ++ e ∷ []) ≡ (consume (feed c es) e).0
  feed-append c [] e = refl
  feed-append c (x ∷ es) e = feed-append (consume c x).0 es e

  pub takes_all-append :
      (c : C) (es : List CollectedEvent) (e : CollectedEvent)
      → takes_all c (es ++ e ∷ []) ≡ (takes_all c es && (consume (feed c es) e).1)
  takes_all-append c [] e = ground arith
  takes_all-append c (x ∷ es) e = ground (arith, takes_all-append (consume c x).0 es e)

  -- The event that the thread has taken from the queue and not yet handed over.
  abbrev pub in_hand : ConsumerThread → List CollectedEvent
  in_hand (consuming event) = event ∷ []
  in_hand waiting = []
  in_hand counting = []
  in_hand failing = []
  in_hand refusing = []
  in_hand closing = []
  in_hand stopped = []

  -- What holds of the counters, by where the thread stands.
  abbrev pub Counts : ConsumerThread → C → QueuedTelemetrySink C → History → Type 0
  Counts waiting c s h =
      (s.consumer_failures ≡ 0) × (h.counted ≡ length h.offered) × (takes_all c h.offered ≡ true)
  Counts (consuming event) c s h =
      (s.consumer_failures ≡ 0) × (h.counted ≡ length h.offered) × (takes_all c h.offered ≡ true)
  Counts counting c s h =
      (s.consumer_failures ≡ 0)
      × (h.counted + 1 ≡ length h.offered)
      × (takes_all c h.offered ≡ true)
  Counts failing c s h =
      (s.consumer_failures ≡ 0)
      × (h.counted + 1 ≡ length h.offered)
      × (takes_all c h.offered ≡ false)
  Counts refusing c s h =
      (s.consumer_failures ≡ 1)
      × (h.counted + 1 ≡ length h.offered)
      × (takes_all c h.offered ≡ false)
  Counts closing c s h =
      (s.consumer_failures ≡ 1)
      × (h.counted + 1 ≡ length h.offered)
      × (takes_all c h.offered ≡ false)
      × (s.accepting_events ≡ false)
  Counts stopped c s h =
      ((s.consumer_failures ≡ 0)
        × (h.counted ≡ length h.offered)
        × (takes_all c h.offered ≡ true)
        × (s.queue.is_closed ≡ true)
        × (s.queue.items ≡ []))
      ⊎ ((s.consumer_failures ≡ 1)
          × (h.counted + 1 ≡ length h.offered)
          × (takes_all c h.offered ≡ false)
          × (s.queue.is_closed ≡ true)
          × (s.accepting_events ≡ false))

  pub record Stands (t : ConsumerThread) (initial : C) (s : QueuedTelemetrySink C) (h : History)
      : Type 0 where
    pub fifo : h.taken_in ≡ h.offered ++ (in_hand t ++ s.queue.items)
    pub fed : s.consumer ≡ feed initial h.offered
    pub counted_events : s.consumed_events ≡ h.counted % u64_mod
    pub counts : Counts t initial s h

  abbrev pub IsConsistent : C → QueuedTelemetrySink C → History → Type 0
  IsConsistent initial s h = Stands s.consumer_thread initial s h

  pub record IsDelivered (initial : C) (s : QueuedTelemetrySink C) (h : History) : Type 0 where
    pub offered_all : h.offered ≡ h.taken_in
    pub took_all : takes_all initial h.taken_in ≡ true
    pub fed : s.consumer ≡ feed initial h.taken_in
    pub counted : s.consumed_events ≡ length h.taken_in % u64_mod
    pub is_closed : s.queue.is_closed ≡ true

  -- The consumer refused the last event that it was called with, and the sink takes no more.
  pub record IsRefusing (initial : C) (s : QueuedTelemetrySink C) (h : History) : Type 0 where
    pub still_waiting : h.taken_in ≡ h.offered ++ s.queue.items
    pub refused : takes_all initial h.offered ≡ false
    pub fed : s.consumer ≡ feed initial h.offered
    pub counted : (h.counted + 1 ≡ length h.offered) × (s.consumed_events ≡ h.counted % u64_mod)
    pub is_closed : s.queue.is_closed ≡ true
    pub not_accepting : s.accepting_events ≡ false
