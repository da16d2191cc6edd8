-- ===== src/Telemetry/Sink/Meanwhile.antt =====
-- What producers and the thread do to the sink between two statements of `shutdown`.
use trace_forge.Common.{
  ℕ, ◌+◌, ◌≤◌, ◌≡◌, inl, inr, refl, subst, ◌∙◌, arith, true, some, sym, ap, ◌++◌, append-nil,
  append_assoc, length-append, Option-cases, List, [], ◌∷◌, length, Bool-cases,
}
use trace_forge.Concurrency.BoundedQueue.{
  BoundedQueue, PopResult, blocked, finished, popped, wait_pop, try_push,
}
use trace_forge.Concurrency.BoundedQueue
use trace_forge.Telemetry.Sink.{
  CollectedEvent, SinkResult, Move, pushes, steps, push_event, push_all, move, meanwhile, Consumer,
  ConsumerThread, waiting, consuming, counting, failing, refusing, closing, stopped,
  QueuedTelemetrySink, stop_accepting, close_queue, take_event, hand_over, run_thread, consume_step,
}
use trace_forge.Telemetry.Sink.Steps.{
  History, accept_history, accepts, Reach, consumes, next, thread_history,
}

module _ {C : Type 0} (consume : Consumer C) where
  pub thread_history-taken_in :
      (h : History) (t : ConsumerThread) → (thread_history h t).taken_in ≡ h.taken_in
  thread_history-taken_in h waiting = refl
  thread_history-taken_in h (consuming event) = refl
  thread_history-taken_in h counting = refl
  thread_history-taken_in h failing = refl
  thread_history-taken_in h refusing = refl
  thread_history-taken_in h closing = refl
  thread_history-taken_in h stopped = refl

  take_event-shrinks :
      (s s' : QueuedTelemetrySink C) (items : List CollectedEvent)
      → s.queue.items ≡ items
      → take_event s ≡ some s'
      → length s'.queue.items ≤ length s.queue.items
  unfolding take_event wait_pop
  take_event-shrinks s s' [] i h = elim (Bool-cases s.queue.is_closed) [
    | inl c ↦ ground (arith, h, i, c)
    | inr c ↦ ground (arith, h, i, c)
  ]
  take_event-shrinks s s' (event ∷ rest) i h = ground (arith, h, i)

  -- A step of the thread leaves no more events in the queue.
  run_thread-shrinks :
      (t : ConsumerThread) (s s' : QueuedTelemetrySink C)
      → run_thread consume t s ≡ some s'
      → length s'.queue.items ≤ length s.queue.items
  unfolding run_thread take_event wait_pop hand_over stop_accepting close_queue BoundedQueue.close
  run_thread-shrinks waiting s s' h = take_event-shrinks s s' s.queue.items refl h
  run_thread-shrinks (consuming event) s s' h = ground (arith, h)
  run_thread-shrinks counting s s' h = ground (arith, h)
  run_thread-shrinks failing s s' h = ground (arith, h)
  run_thread-shrinks refusing s s' h = ground (arith, h)
  run_thread-shrinks closing s s' h = ground (arith, h)
  run_thread-shrinks stopped s s' h = absurd (ground (arith, h))

  push_event-grows :
      (s : QueuedTelemetrySink C) (event : CollectedEvent)
      → length (push_event s event).0.queue.items ≤ length s.queue.items + 1
  unfolding push_event try_push
  push_event-grows s event = ground (arith, length-append s.queue.items (event ∷ []))

  -- The events that the sink accepts in such a stretch.
  abbrev pub accepted_by : QueuedTelemetrySink C → Move → List CollectedEvent
  accepted_by s (pushes event) = elim (push_event s event).1 [
    | SinkResult.accepted ↦ event ∷ []
    | SinkResult.overloaded ↦ []
    | SinkResult.unavailable ↦ []
  ]
  accepted_by s steps = []

  abbrev pub accepted_meanwhile : QueuedTelemetrySink C → List Move → List CollectedEvent
  accepted_meanwhile s [] = []
  accepted_meanwhile s (m ∷ moves) = accepted_by s m ++ accepted_meanwhile (move consume m s) moves

  -- What such a stretch does to a sink and its history.
  abbrev pub Passes : ℕ → C → QueuedTelemetrySink C → List CollectedEvent → ℕ → Type 0
  Passes capacity initial s taken_in most =
      (h : History) × Reach consume capacity initial s h
      × (h.taken_in ≡ taken_in)
      × (length s.queue.items ≤ most)

  accept_history-taken_in :
      (h : History) (event : CollectedEvent) (r : SinkResult)
      → (accept_history h event r).taken_in
        ≡ h.taken_in ++ elim r [
          | SinkResult.accepted ↦ event ∷ []
          | SinkResult.overloaded ↦ []
          | SinkResult.unavailable ↦ []
        ]
  accept_history-taken_in h event SinkResult.accepted = refl
  accept_history-taken_in h event SinkResult.overloaded = sym (append-nil h.taken_in)
  accept_history-taken_in h event SinkResult.unavailable = sym (append-nil h.taken_in)

  move-Passes :
      (capacity : ℕ) (initial : C) (m : Move) (s : QueuedTelemetrySink C) (h : History)
      → Reach consume capacity initial s h
      → Passes capacity initial
          (move consume m s)
          (h.taken_in ++ accepted_by s m)
          (length s.queue.items + 1)
  unfolding move consume_step
  move-Passes capacity initial (pushes event) s h r = (
    _,
    next r (accepts event),
    accept_history-taken_in h event (push_event s event).1,
    push_event-grows s event,
  )
  move-Passes capacity initial steps s h r =
      elim (Option-cases (run_thread consume s.consumer_thread s)) [
        | inl e ↦ rw (e, move, consume_step) (h, r, sym (append-nil h.taken_in), omega arith)
        | inr (s', e) ↦
            rw (e, move, consume_step)
              (
                thread_history h s.consumer_thread,
                next r (consumes s' e),
                thread_history-taken_in h s.consumer_thread ∙ sym (append-nil h.taken_in),
                omega (arith, run_thread-shrinks s.consumer_thread s s' e),
              )
      ]

  pub meanwhile-Passes :
      (capacity : ℕ) (initial : C) (moves : List Move) (s : QueuedTelemetrySink C) (h : History)
      → Reach consume capacity initial s h
      → Passes capacity initial
          (meanwhile consume moves s)
          (h.taken_in ++ accepted_meanwhile s moves)
          (length s.queue.items + length moves)
  unfolding meanwhile
  meanwhile-Passes capacity initial [] s h r = (h, r, sym (append-nil h.taken_in), omega arith)
  meanwhile-Passes capacity initial (m ∷ moves) s h r =
      let (h₁, r₁, same₁, most₁) = move-Passes capacity initial m s h r in
      let (h₂, r₂, same₂, most₂) = meanwhile-Passes capacity initial moves _ h₁ r₁ in
      (
        h₂,
        r₂,
        same₂
            ∙ ap (λ es. es ++ accepted_meanwhile (move consume m s) moves) same₁
            ∙ append_assoc h.taken_in (accepted_by s m) _,
        omega (arith, most₁, most₂),
      )

  -- Pushes into a closed queue are refused and counted.
  push_closed :
      (s : QueuedTelemetrySink C) (event : CollectedEvent)
      → s.queue.is_closed ≡ true
      → ((push_event s event).0.queue.is_closed ≡ true)
        × ((push_event s event).0.queue.items ≡ s.queue.items)
        × ((push_event s event).0.consumer_thread ≡ s.consumer_thread)
        × ((push_event s event).1 ≡ SinkResult.unavailable)
  unfolding push_event try_push
  push_closed s event c = ground (arith, c)

  pub push_all_closed :
      (capacity : ℕ) (initial : C) (events : List CollectedEvent) (s : QueuedTelemetrySink C)
      (h : History)
      → Reach consume capacity initial s h
      → s.queue.is_closed ≡ true
      → Reach consume capacity initial (push_all s events) h
        × ((push_all s events).queue.is_closed ≡ true)
        × ((push_all s events).queue.items ≡ s.queue.items)
        × ((push_all s events).consumer_thread ≡ s.consumer_thread)
  unfolding push_all
  push_all_closed capacity initial [] s h r c = (r, c, refl, refl)
  push_all_closed capacity initial (event ∷ events) s h r c =
      let (closed, items, thread, refused) = push_closed s event c in
      let unchanged : accept_history h event (push_event s event).1 ≡ h =
        ap (accept_history h event) refused in
      let (r', closed', items', thread') =
        push_all_closed capacity initial events (push_event s event).0 h
          (subst (Reach consume capacity initial (push_event s event).0) unchanged
            (next r (accepts event)))
          closed in
      (r', closed', items' ∙ items, thread' ∙ thread)
