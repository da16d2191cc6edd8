-- ===== src/Concurrency/BoundedQueue.antt =====
-- `BoundedQueue` of include/traceforge/concurrency/bounded_queue.hpp. Each method holds the mutex for
-- all that it reads and writes, so a call is one step; `wait_pop` is the step that is taken once its
-- condition holds, and `blocked` until then.
pub mod History
mod Tests
use trace_forge.Common.{
  ℕ, ◌+◌, ◌%◌, Bool, true, false, ◌||◌, not, ltb, ◌==◌, if◌then◌else◌, Option, none, some, List, [],
  ◌∷◌, ◌++◌, length, u64_mod,
}

pub data QueuePushResult : Type 0 where
  accepted full closed : QueuePushResult

pub record BoundedQueueStats : Type 0 where
  pub capacity : ℕ
  pub current_size : ℕ
  pub high_watermark : ℕ
  pub accepted_items : ℕ
  pub rejected_items : ℕ
  pub is_closed : Bool

pub record BoundedQueue (A : Type 0) : Type 0 where
  pub capacity : ℕ
  pub items : List A
  pub high_watermark : ℕ
  pub accepted_items : ℕ
  pub rejected_items : ℕ
  pub is_closed : Bool

-- What `wait_pop` comes to.
pub data PopResult (A : Type 0) : Type 0 where
  blocked : PopResult A
  finished : PopResult A
  popped : A → BoundedQueue A → PopResult A

module _ {A : Type 0} where
  -- The constructor; `none` where it throws.
  unfoldable pub create : ℕ → Option (BoundedQueue A)
  create capacity =
      if capacity == 0
      then none
      else some (record {
        capacity = capacity;
        items = [];
        high_watermark = 0;
        accepted_items = 0;
        rejected_items = 0;
        is_closed = false;
      })

  unfoldable pub try_push : BoundedQueue A → A → BoundedQueue A × QueuePushResult
  try_push q item =
      let rejected = record q { rejected_items = (q.rejected_items + 1) % u64_mod } in
      let items = q.items ++ item ∷ [] in
      let pushed = record q {
        items = items;
        accepted_items = (q.accepted_items + 1) % u64_mod;
        high_watermark =
            if ltb q.high_watermark (length items) then length items else q.high_watermark;
      } in
      if q.is_closed
      then (rejected, QueuePushResult.closed)
      else if length q.items == q.capacity
      then (rejected, QueuePushResult.full)
      else (pushed, QueuePushResult.accepted)

  -- The predicate of the wait is `closed_ || !items_.empty()`.
  unfoldable pub wait_pop : BoundedQueue A → PopResult A
  wait_pop q = elim q.items [
    | [] ↦ if q.is_closed then finished else blocked
    | item ∷ rest ↦ popped item (record q { items = rest })
  ]

  unfoldable pub close : BoundedQueue A → BoundedQueue A
  close q = record q { is_closed = true }

  unfoldable pub stats : BoundedQueue A → BoundedQueueStats
  stats q = record {
    capacity = q.capacity;
    current_size = length q.items;
    high_watermark = q.high_watermark;
    accepted_items = q.accepted_items;
    rejected_items = q.rejected_items;
    is_closed = q.is_closed;
  }
