-- ===== src/Concurrency/BoundedQueue/History.antt =====
-- The queue under any interleaving of calls, against the history of what was accepted, rejected and
-- handed out.
use trace_forge.Common.{
  ℕ, zero, suc, ◌+◌, ◌%◌, ◌≤◌, ◌<◌, ◌≡◌, refl, arith, true, Option, none, some, List, [], ◌∷◌, ◌++◌,
  length, append_assoc, length-append, u64_mod,
}
use trace_forge.Concurrency.BoundedQueue.{
  QueuePushResult, BoundedQueue, blocked, finished, popped, create, try_push, wait_pop, close,
}

-- What has happened so far: the items that `try_push` accepted and those that `wait_pop` returned, each in
-- order, and the number of rejections.
pub record History (A : Type 0) : Type 0 where
  pub taken_in : List A
  pub handed_out : List A
  pub rejections : ℕ

abbrev pub no_history : {A : Type 0} → History A
no_history = record { taken_in = []; handed_out = []; rejections = 0 }

abbrev pub push_history : {A : Type 0} → History A → A → QueuePushResult → History A
push_history h item QueuePushResult.accepted = record h { taken_in = h.taken_in ++ item ∷ [] }
push_history h item QueuePushResult.full = record h { rejections = h.rejections + 1 }
push_history h item QueuePushResult.closed = record h { rejections = h.rejections + 1 }

-- One call by some thread.
pub data Step {A : Type 0} (q : BoundedQueue A) (h : History A)
    : BoundedQueue A → History A → Type 0 where
  pushes : (item : A) → Step q h (try_push q item).0 (push_history h item (try_push q item).1)
  pops :
      (item : A) (q' : BoundedQueue A)
      → wait_pop q ≡ popped item q'
      → Step q h q' (record h { handed_out = h.handed_out ++ item ∷ [] })
  closes : Step q h (close q) h

-- What threads can make of a new queue.
pub data Reach {A : Type 0} (capacity : ℕ) : BoundedQueue A → History A → Type 0 where
  new : (q : BoundedQueue A) → create capacity ≡ some q → Reach capacity q no_history
  next :
      {q q' : BoundedQueue A} {h h' : History A}
      → Reach capacity q h
      → Step q h q' h'
      → Reach capacity q' h'

pub record IsConsistent {A : Type 0} (capacity : ℕ) (q : BoundedQueue A) (h : History A)
    : Type 0 where
  pub fixed : q.capacity ≡ capacity
  pub positive : 0 < capacity
  pub fifo : h.taken_in ≡ h.handed_out ++ q.items
  pub bounded : length q.items ≤ capacity
  pub watermark : (length q.items ≤ q.high_watermark) × (q.high_watermark ≤ capacity)
  pub accepts_counted : q.accepted_items ≡ length h.taken_in % u64_mod
  pub rejects_counted : q.rejected_items ≡ h.rejections % u64_mod

pub wait_pop-items :
    {A : Type 0} (q q' : BoundedQueue A) (item : A)
    → wait_pop q ≡ popped item q'
    → (q.items ≡ item ∷ q'.items) × (q' ≡ record q { items = q'.items })
unfolding wait_pop
wait_pop-items q q' item e = ground arith

module _ {A : Type 0} (capacity : ℕ) where
  create-IsConsistent :
      (q : BoundedQueue A) → create capacity ≡ some q → IsConsistent capacity q no_history
  unfolding create
  create-IsConsistent q e = ground arith

  try_push-IsConsistent :
      (q : BoundedQueue A) (h : History A) (item : A)
      → IsConsistent capacity q h
      → IsConsistent capacity (try_push q item).0 (push_history h item (try_push q item).1)
  unfolding try_push
  try_push-IsConsistent q h item c = ground (
    arith,
    length-append q.items (item ∷ []),
    length-append h.taken_in (item ∷ []),
    append_assoc h.handed_out q.items (item ∷ []),
  )

  pop-IsConsistent :
      (q q' : BoundedQueue A) (h : History A) (item : A)
      → wait_pop q ≡ popped item q'
      → IsConsistent capacity q h
      → IsConsistent capacity q' (record h { handed_out = h.handed_out ++ item ∷ [] })
  pop-IsConsistent q q' h item e c =
      ground (arith, wait_pop-items q q' item e, append_assoc h.handed_out (item ∷ []) q'.items)

  close-IsConsistent :
      (q : BoundedQueue A) (h : History A)
      → IsConsistent capacity q h
      → IsConsistent capacity (close q) h
  unfolding close
  close-IsConsistent q h c = ground arith

  -- In every state that calls of `try_push`, `wait_pop` and `close` by any threads can bring a
  -- new queue to, the items that were accepted are, in order, those that were handed out followed
  -- by those in the queue; the queue holds no more than its positive capacity; the high watermark
  -- is between the present size and the capacity; and the counters are the numbers of accepted
  -- and of rejected items, modulo 2 ^ 64.
  pub Reach-IsConsistent :
      {q : BoundedQueue A} {h : History A} → Reach capacity q h → IsConsistent capacity q h
  Reach-IsConsistent (new q e) = create-IsConsistent q e
  Reach-IsConsistent (next {q = q} {h = h} r (pushes item)) =
      try_push-IsConsistent q h item (Reach-IsConsistent r)
  Reach-IsConsistent (next {q = q} {h = h} r (pops item q' e)) =
      pop-IsConsistent q q' h item e (Reach-IsConsistent r)
  Reach-IsConsistent (next {q = q} {h = h} r closes) = close-IsConsistent q h (Reach-IsConsistent r)

module _ {A : Type 0} where
  -- What one consumer gets from repeated calls of `wait_pop` up to the empty optional; `none` if a call blocks
  -- or the fuel runs out.
  pub drain : ℕ → BoundedQueue A → Option (List A)
  drain zero q = none
  drain (suc fuel) q = elim (wait_pop q) [
    | blocked ↦ none
    | finished ↦ some []
    | popped item q' ↦ elim (drain fuel q') [ none ↦ none | some rest ↦ some (item ∷ rest) ]
  ]

  drain-closed :
      (items : List A) (fuel : ℕ) (q : BoundedQueue A)
      → length items < fuel
      → q.items ≡ items
      → q.is_closed ≡ true
      → drain fuel q ≡ some items
  unfolding drain wait_pop
  drain-closed items zero q f e c = absurd (omega arith)
  drain-closed [] (suc fuel) q f e c = rw (e, c)
  drain-closed (x ∷ items) (suc fuel) q f e c =
      rw e (rw (drain-closed items fuel (record q { items = items }) (omega arith) refl c) refl)

  -- After `close`, a consumer that calls `wait_pop` until it gets nothing never blocks and gets
  -- exactly the items that were in the queue, in order; a later `try_push` is refused as closed
  -- and changes nothing of that.
  pub drain-close :
      (q : BoundedQueue A) (item : A)
      → let late = try_push (close q) item in
        (drain (suc (length q.items)) (close q) ≡ some q.items)
        × (late.1 ≡ QueuePushResult.closed)
        × (drain (suc (length q.items)) late.0 ≡ some q.items)
  unfolding close try_push
  drain-close q item = (
    drain-closed q.items _ _ (omega arith) refl refl,
    refl,
    drain-closed q.items _ _ (omega arith) refl refl,
  )

  -- What a `try_push` leaves in the queue.
  pub try_push-items :
      (q : BoundedQueue A) (item : A)
      → (try_push q item).0.items
        ≡ elim (try_push q item).1 [ QueuePushResult.accepted ↦ q.items ++ item ∷ [] | _ ↦ q.items ]
  unfolding try_push
  try_push-items q item = ground arith

  pub try_push-is_closed :
      (q : BoundedQueue A) (item : A) → (try_push q item).0.is_closed ≡ q.is_closed
  unfolding try_push
  try_push-is_closed q item = ground arith

  pub try_push_closed :
      (q : BoundedQueue A) (item : A)
      → q.is_closed ≡ true
      → (try_push q item).1 ≡ QueuePushResult.closed
  unfolding try_push
  try_push_closed q item c = ground arith

  pub wait_pop_finished :
      (q : BoundedQueue A) → wait_pop q ≡ finished → (q.items ≡ []) × (q.is_closed ≡ true)
  unfolding wait_pop
  wait_pop_finished q e = ground arith
