-- ===== src/Concurrency/BoundedQueue/Tests.antt =====
-- Runs of the queue.
use trace_forge.Common.{ℕ, ◌≡◌, refl, false, some, [], ◌∷◌}
use trace_forge.Concurrency.BoundedQueue.{QueuePushResult, BoundedQueue, create, try_push, close}
use trace_forge.Concurrency.BoundedQueue.History.{
  History, pushes, Reach, new, next, IsConsistent, Reach-IsConsistent, drain, drain-close,
}

abbrev empty_queue : BoundedQueue ℕ
empty_queue = record {
  capacity = 1;
  items = [];
  high_watermark = 0;
  accepted_items = 0;
  rejected_items = 0;
  is_closed = false;
}

abbrev full_queue : BoundedQueue ℕ
full_queue = record empty_queue { items = 7 ∷ []; accepted_items = 1; high_watermark = 1 }

create_empty : create 1 ≡ some empty_queue
unfolding create
create_empty = refl

push_full : try_push full_queue 8 ≡ (record full_queue { rejected_items = 1 }, QueuePushResult.full)
unfolding try_push
push_full = refl

abbrev rejecting : History ℕ
rejecting = record { taken_in = 7 ∷ []; handed_out = []; rejections = 1 }

rejecting-Reach : Reach 1 (record full_queue { rejected_items = 1 }) rejecting
unfolding try_push
rejecting-Reach = next (next (new empty_queue create_empty) (pushes 7)) (pushes 8)

Reach-IsConsistent_example : IsConsistent 1 (record full_queue { rejected_items = 1 }) rejecting
Reach-IsConsistent_example = Reach-IsConsistent 1 rejecting-Reach

drain-close_example :
    (drain 2 (close full_queue) ≡ some (7 ∷ []))
    × ((try_push (close full_queue) 8).1 ≡ QueuePushResult.closed)
    × (drain 2 (try_push (close full_queue) 8).0 ≡ some (7 ∷ []))
drain-close_example = drain-close full_queue 8
