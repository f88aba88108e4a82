-- ===== src/Runner/BatchQueue/Tests.antt =====
-- Runs of the detection queues of pipeline/pipeline_runner.c. A pointer is a number.
use video_compute_pipeline.Prelude.{
  ℕ, ◌≡◌, refl, Bool, true, false, List, [], ◌∷◌, none, some, All, arith,
}
use video_compute_pipeline.Prelude.Int.{pos, success, yes_one}
use video_compute_pipeline.FramePool.{waits, returns}
use video_compute_pipeline.Runner.BatchQueue.{
  DetectionBatchQueue, detection_batch_queue_push, detection_batch_queue_pop,
  detection_async_slot_queue_try_pop, detection_batch_queue_close, detection_async_slot_queue_push,
}
use video_compute_pipeline.Runner.BatchQueue.Refine.{contents, IsQueue}
use video_compute_pipeline.Runner.BatchQueue.Run.{
  Call, push_call, pop_call, try_pop_call, close_call, is_waits, view, run, fifo_run, calls_refine,
  closed_lem,
}
use video_compute_pipeline.Runner.BatchQueue.Drain.{drain, drained, drain_lem}

-- Two places, with the pointer 5 in the second.
abbrev queue : Bool → DetectionBatchQueue ℕ
queue closed = record {
  items = some (record { address = 3; contents = none ∷ some 5 ∷ [] });
  capacity = 2;
  head = 1;
  tail = 0;
  count = 1;
  closed = closed;
}

queue-IsQueue : (closed : Bool) → IsQueue (queue closed)
queue-IsQueue closed = record {
  block = record { address = 3; contents = none ∷ some 5 ∷ [] };
  stored = refl;
  ring = record {
    room = refl;
    head_in = omega arith;
    count_in = omega arith;
    tail_at = refl;
    vacant = (refl, tt);
  };
  small = omega arith;
}

abbrev calls : List (Call ℕ)
calls =
    push_call 6 ∷ push_call 7 ∷ pop_call ∷ close_call ∷ push_call 8 ∷ pop_call ∷ try_pop_call ∷ []

replies :
    (run (queue false) calls).1
    ≡ (none, returns yes_one)
      ∷ (none, waits)
      ∷ (some 5, returns yes_one)
      ∷ (none, returns success)
      ∷ (none, returns (pos 0))
      ∷ (some 6, returns yes_one)
      ∷ (none, returns (pos 0))
      ∷ []
unfolding run detection_batch_queue_push detection_batch_queue_pop
    detection_async_slot_queue_try_pop detection_batch_queue_close
replies = refl

full_slots : (detection_async_slot_queue_push (queue true) 6).1 ≡ returns (pos 0)
unfolding detection_batch_queue_push
full_slots = refl

calls_refine_example :
    ((view (run (queue false) calls).0, (run (queue false) calls).1)
      ≡ fifo_run 2 (view (queue false)) calls)
    × IsQueue (run (queue false) calls).0
calls_refine_example = calls_refine (queue false) calls (queue-IsQueue false)

closed_lem_example : All (λ a. is_waits a.1 ≡ false) (run (queue true) calls).1
closed_lem_example = closed_lem (queue true) calls (queue-IsQueue true) refl

drain_lem_example : (run (queue true) (drain 1)).1 ≡ drained (contents (queue true))
drain_lem_example = drain_lem (queue true) (queue-IsQueue true) refl
