-- ===== src/Telemetry/Sink/Invariant.antt =====
-- The invariant of the sink holds in every state that is reached.
use trace_forge.Common.{
  ℕ, ◌≡◌, ◌⊎◌, inl, inr, refl, sym, subst, ap, ◌∙◌, arith, true, false, some, [], ◌∷◌, ◌++◌,
  append-nil, append_assoc, length-append, Bool-cases,
}
use trace_forge.Concurrency.BoundedQueue.{
  QueuePushResult, BoundedQueue, PopResult, blocked, finished, popped, try_push, wait_pop,
}
use trace_forge.Concurrency.BoundedQueue
use trace_forge.Concurrency.BoundedQueue.History.{
  try_push-items, try_push-is_closed, try_push_closed, wait_pop-items, wait_pop_finished,
}
use trace_forge.Telemetry.Sink.{
  CollectedEvent, Consumer, ConsumerThread, waiting, consuming, counting, failing, refusing,
  closing, stopped, QueuedTelemetrySink, create, sink_result, push_event, stop_accepting,
  close_queue, take_event, hand_over, run_thread, consume_step,
}
use trace_forge.Telemetry.Sink.Steps.{
  History, no_history, accept_history, accept_history-offered, thread_history, Step, accepts,
  consumes, stops, closes, Reach, new, next, feed-append, takes_all-append, in_hand, Counts, Stands,
  IsConsistent, IsDelivered, IsRefusing,
}

module _ {C : Type 0} (consume : Consumer C) where
  create-IsConsistent :
      (capacity : ℕ) (initial : C) (s : QueuedTelemetrySink C)
      → create capacity initial ≡ some s
      → IsConsistent consume initial s no_history
  unfolding create BoundedQueue.create
  create-IsConsistent capacity initial s e = ground arith

  Counts-push :
      (t : ConsumerThread) (c : C) (s : QueuedTelemetrySink C) (h : History)
      (event : CollectedEvent)
      → Counts consume t c s h
      → Counts consume t c (push_event s event).0 (accept_history h event (push_event s event).1)
  unfolding push_event
  Counts-push waiting c s h event k =
      ground (arith, accept_history-offered h event (sink_result (try_push s.queue event).1))
  Counts-push (consuming x) c s h event k =
      ground (arith, accept_history-offered h event (sink_result (try_push s.queue event).1))
  Counts-push counting c s h event k =
      ground (arith, accept_history-offered h event (sink_result (try_push s.queue event).1))
  Counts-push failing c s h event k =
      ground (arith, accept_history-offered h event (sink_result (try_push s.queue event).1))
  Counts-push refusing c s h event k =
      ground (arith, accept_history-offered h event (sink_result (try_push s.queue event).1))
  Counts-push closing c s h event k =
      ground (arith, accept_history-offered h event (sink_result (try_push s.queue event).1))
  Counts-push stopped c s h event k = ground (
    arith,
    accept_history-offered h event (sink_result (try_push s.queue event).1),
    try_push-is_closed s.queue event,
    try_push_closed s.queue event,
    try_push-items s.queue event,
  )

  push-IsConsistent :
      (initial : C) (s : QueuedTelemetrySink C) (h : History) (event : CollectedEvent)
      → IsConsistent consume initial s h
      → IsConsistent consume initial
          (push_event s event).0
          (accept_history h event (push_event s event).1)
  unfolding push_event
  push-IsConsistent initial s h event k = record {
    fifo = ground (
      arith,
      try_push-items s.queue event,
      append_assoc h.offered (in_hand consume s.consumer_thread ++ s.queue.items) (event ∷ []),
      append_assoc (in_hand consume s.consumer_thread) s.queue.items (event ∷ []),
      k.fifo,
    );
    fed = ground (arith, k.fed);
    counted_events = ground (arith, k.counted_events);
    counts = Counts-push s.consumer_thread initial s h event k.counts;
  }

  popped-Stands :
      (initial : C) (s : QueuedTelemetrySink C) (h : History) (event : CollectedEvent)
      (queue : BoundedQueue CollectedEvent)
      → wait_pop s.queue ≡ popped event queue
      → Stands consume waiting initial s h
      → Stands consume
          (consuming event)
          initial
          (record s { queue = queue; consumer_thread = consuming event })
          h
  popped-Stands initial s h event queue w k = record {
    fifo = k.fifo ∙ ap (λ items. h.offered ++ items) (wait_pop-items s.queue queue event w).0;
    fed = k.fed;
    counted_events = k.counted_events;
    counts = k.counts;
  }

  finished-Stands :
      (initial : C) (s : QueuedTelemetrySink C) (h : History)
      → wait_pop s.queue ≡ finished
      → Stands consume waiting initial s h
      → Stands consume stopped initial (record s { consumer_thread = stopped }) h
  finished-Stands initial s h w k = record {
    fifo = k.fifo;
    fed = k.fed;
    counted_events = k.counted_events;
    counts = ground (arith, wait_pop_finished s.queue w, k.counts);
  }

  hand_over_took :
      (initial : C) (s : QueuedTelemetrySink C) (h : History) (event : CollectedEvent)
      → (consume s.consumer event).1 ≡ true
      → Stands consume (consuming event) initial s h
      → IsConsistent consume initial
          (hand_over consume s event)
          (thread_history h (consuming event))
  unfolding hand_over
  hand_over_took initial s h event took k = rw took (record {
    fifo = k.fifo ∙ sym (append_assoc h.offered (event ∷ []) s.queue.items);
    fed = ap (λ c. (consume c event).0) k.fed ∙ sym (feed-append consume initial h.offered event);
    counted_events = k.counted_events;
    counts = ground (
      arith,
      k.counts,
      k.fed,
      length-append h.offered (event ∷ []),
      takes_all-append consume initial h.offered event,
    );
  })

  hand_over_refused :
      (initial : C) (s : QueuedTelemetrySink C) (h : History) (event : CollectedEvent)
      → (consume s.consumer event).1 ≡ false
      → Stands consume (consuming event) initial s h
      → IsConsistent consume initial
          (hand_over consume s event)
          (thread_history h (consuming event))
  unfolding hand_over
  hand_over_refused initial s h event refused k = rw refused (record {
    fifo = k.fifo ∙ sym (append_assoc h.offered (event ∷ []) s.queue.items);
    fed = ap (λ c. (consume c event).0) k.fed ∙ sym (feed-append consume initial h.offered event);
    counted_events = k.counted_events;
    counts = ground (
      arith,
      k.counts,
      k.fed,
      length-append h.offered (event ∷ []),
      takes_all-append consume initial h.offered event,
    );
  })

  hand_over-Stands :
      (initial : C) (s : QueuedTelemetrySink C) (h : History) (event : CollectedEvent)
      → Stands consume (consuming event) initial s h
      → IsConsistent consume initial
          (hand_over consume s event)
          (thread_history h (consuming event))
  unfolding hand_over
  hand_over-Stands initial s h event k = elim (Bool-cases (consume s.consumer event).1) [
    | inl took ↦ hand_over_took initial s h event took k
    | inr refused ↦ hand_over_refused initial s h event refused k
  ]

  next-IsConsistent :
      (initial : C) (s s' : QueuedTelemetrySink C) (h : History)
      → some s ≡ some s'
      → IsConsistent consume initial s h
      → IsConsistent consume initial s' h
  next-IsConsistent initial s s' h e k =
      subst (λ x. IsConsistent consume initial x h) (ground arith) k

  take_event-IsConsistent :
      (initial : C) (s s' : QueuedTelemetrySink C) (h : History) (r : PopResult CollectedEvent)
      → wait_pop s.queue ≡ r
      → take_event s ≡ some s'
      → Stands consume waiting initial s h
      → IsConsistent consume initial s' h
  unfolding take_event
  take_event-IsConsistent initial s s' h blocked w e k = ground arith
  take_event-IsConsistent initial s s' h finished w e k =
      next-IsConsistent initial _ s' h (ground (arith, w, e)) (finished-Stands initial s h w k)
  take_event-IsConsistent initial s s' h (popped event queue) w e k =
      next-IsConsistent initial _ s' h (ground (arith, w, e))
        (popped-Stands initial s h event queue w k)

  run_thread-IsConsistent :
      (t : ConsumerThread) (initial : C) (s s' : QueuedTelemetrySink C) (h : History)
      → run_thread consume t s ≡ some s'
      → Stands consume t initial s h
      → IsConsistent consume initial s' (thread_history h t)
  unfolding run_thread stop_accepting close_queue BoundedQueue.close
  run_thread-IsConsistent waiting initial s s' h e k =
      take_event-IsConsistent initial s s' h _ refl e k
  run_thread-IsConsistent (consuming event) initial s s' h e k =
      next-IsConsistent initial _ s' _ e (hand_over-Stands initial s h event k)
  run_thread-IsConsistent counting initial s s' h e k = next-IsConsistent initial _ s' _ e (record {
    fifo = k.fifo;
    fed = k.fed;
    counted_events = ground (arith, k.counted_events);
    counts = k.counts;
  })
  run_thread-IsConsistent failing initial s s' h e k = next-IsConsistent initial _ s' _ e (record {
    fifo = k.fifo;
    fed = k.fed;
    counted_events = k.counted_events;
    counts = ground (arith, k.counts);
  })
  run_thread-IsConsistent refusing initial s s' h e k = next-IsConsistent initial _ s' _ e (record {
    fifo = k.fifo;
    fed = k.fed;
    counted_events = k.counted_events;
    counts = ground (arith, k.counts);
  })
  run_thread-IsConsistent closing initial s s' h e k = next-IsConsistent initial _ s' _ e (record {
    fifo = k.fifo;
    fed = k.fed;
    counted_events = k.counted_events;
    counts = ground (arith, k.counts);
  })
  run_thread-IsConsistent stopped initial s s' h e k = ground arith

  Counts-stop :
      (t : ConsumerThread) (c : C) (s : QueuedTelemetrySink C) (h : History)
      → Counts consume t c s h
      → Counts consume t c (stop_accepting s) h
  unfolding stop_accepting
  Counts-stop waiting c s h k = ground arith
  Counts-stop (consuming x) c s h k = ground arith
  Counts-stop counting c s h k = ground arith
  Counts-stop failing c s h k = ground arith
  Counts-stop refusing c s h k = ground arith
  Counts-stop closing c s h k = ground arith
  Counts-stop stopped c s h k = ground arith

  Counts-close :
      (t : ConsumerThread) (c : C) (s : QueuedTelemetrySink C) (h : History)
      → Counts consume t c s h
      → Counts consume t c (close_queue s) h
  unfolding close_queue BoundedQueue.close
  Counts-close waiting c s h k = ground arith
  Counts-close (consuming x) c s h k = ground arith
  Counts-close counting c s h k = ground arith
  Counts-close failing c s h k = ground arith
  Counts-close refusing c s h k = ground arith
  Counts-close closing c s h k = ground arith
  Counts-close stopped c s h k = ground arith

  step-IsConsistent :
      (initial : C) (s s' : QueuedTelemetrySink C) (h h' : History)
      → Step consume s h s' h'
      → IsConsistent consume initial s h
      → IsConsistent consume initial s' h'
  unfolding consume_step stop_accepting close_queue BoundedQueue.close
  step-IsConsistent initial s _ h _ (accepts event) k = push-IsConsistent initial s h event k
  step-IsConsistent initial s s' h _ (consumes _ e) k =
      run_thread-IsConsistent s.consumer_thread initial s s' h e k
  step-IsConsistent initial s _ h _ stops k = record {
    fifo = k.fifo;
    fed = k.fed;
    counted_events = k.counted_events;
    counts = Counts-stop s.consumer_thread initial s h k.counts;
  }
  step-IsConsistent initial s _ h _ closes k = record {
    fifo = k.fifo;
    fed = k.fed;
    counted_events = k.counted_events;
    counts = Counts-close s.consumer_thread initial s h k.counts;
  }

  pub sink-IsConsistent :
      (capacity : ℕ) (initial : C) (s : QueuedTelemetrySink C) (h : History)
      → Reach consume capacity initial s h
      → IsConsistent consume initial s h
  sink-IsConsistent capacity initial s _ (new _ e) = create-IsConsistent capacity initial s e
  sink-IsConsistent capacity initial s' h' (next {s = s} {h = h} r step) =
      step-IsConsistent initial s s' h h' step (sink-IsConsistent capacity initial s h r)

  -- No event waits, and the consumer was called with all of them, in the order in which they were accepted.
  pub stopped-IsDelivered :
      (initial : C) (s : QueuedTelemetrySink C) (h : History)
      → Stands consume stopped initial s h
      → (s.consumer_failures ≡ 0) × IsDelivered consume initial s h
        ⊎ (s.consumer_failures ≡ 1) × IsRefusing consume initial s h
  stopped-IsDelivered initial s h k = elim k.counts [
    | inl c ↦ inl (
      c.0,
      record {
        offered_all = ground (arith, k.fifo, c, append-nil h.offered);
        took_all = ground (arith, k.fifo, c, append-nil h.offered);
        fed = ground (arith, k.fed, k.fifo, c, append-nil h.offered);
        counted = ground (arith, k.counted_events, k.fifo, c, append-nil h.offered);
        is_closed = c.3;
      },
    )
    | inr c ↦ inr (
      c.0,
      record {
        still_waiting = k.fifo;
        refused = c.2;
        fed = k.fed;
        counted = (c.1, k.counted_events);
        is_closed = c.3;
        not_accepting = c.4;
      },
    )
  ]
