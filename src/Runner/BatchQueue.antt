-- ===== src/Runner/BatchQueue.antt =====
-- pipeline/pipeline_runner.c: `DetectionBatchQueue`, the bounded queue of pointers between two threads
-- of the detection pipeline, and the two queues of the asynchronous one, which have its code. `P` is
-- the type of the pointers that are not null. Each function is one critical section. Where the source
-- waits on a condition variable the reply is `waits`, and the thread makes the call again when it is
-- woken.
pub mod Refine
pub mod Run
pub mod Drain
pub mod Tests
use video_compute_pipeline.Prelude.{
  ℕ, ◌-◌, ◌%◌, Bool, true, false, not, ◌&&◌, Option, none, some, List, [], get_or, set, replicate,
  ltb, ◌==◌, if◌then◌else◌,
}
use video_compute_pipeline.Prelude.Int.{ℤ, pos, success, yes_one, failure}
use video_compute_pipeline.Memory.{Heap, Block, calloc, free as free_block, add_size}
use video_compute_pipeline.FramePool.{Reply, waits, returns}

-- The array `items` has `capacity` pointers, which may be null.
pub record DetectionBatchQueue (P : Type 0) : Type 0 where
  pub items : Option (Block (Option P))
  pub capacity : ℕ
  pub head : ℕ
  pub tail : ℕ
  pub count : ℕ
  pub closed : Bool

module _ {P : Type 0} where
  abbrev pub array : Option (Block (Option P)) → List (Option P)
  array none = []
  array (some b) = b.contents

  abbrev pub store : Option (Block (Option P)) → List (Option P) → Option (Block (Option P))
  store none ps = none
  store (some b) ps = some (record b { contents = ps })

  abbrev pub zeroed : DetectionBatchQueue P
  zeroed = record { items = none; capacity = 0; head = 0; tail = 0; count = 0; closed = false }

  -- `detection_batch_queue_init` once the array is there or not.
  abbrev pub with_array : Heap → ℕ → Option (Block (Option P)) → Heap × DetectionBatchQueue P × ℤ
  with_array h capacity none = (h, zeroed, failure)
  with_array h capacity (some b) =
      (h, record zeroed { items = some b; capacity = capacity }, success)

  unfoldable pub detection_batch_queue_init :
      Heap → DetectionBatchQueue P → ℕ → Heap × DetectionBatchQueue P × ℤ
  unfolding calloc
  detection_batch_queue_init h q capacity =
      if capacity == 0
      then (h, q, failure)
      else let (h', b) = calloc h (replicate capacity none) in with_array h' capacity b

  -- A queue without an array is left as it is.
  abbrev closed_if : Option (Block (Option P)) → DetectionBatchQueue P → DetectionBatchQueue P
  closed_if none q = q
  closed_if (some b) q = record q { closed = true }

  unfoldable pub detection_batch_queue_close : DetectionBatchQueue P → DetectionBatchQueue P
  detection_batch_queue_close q = closed_if q.items q

  abbrev destroyed :
      Heap → DetectionBatchQueue P → Option (Block (Option P)) → Heap × DetectionBatchQueue P
  destroyed h q none = (h, q)
  destroyed h q (some b) =
      (free_block h (some b), record q { items = none; capacity = 0; count = 0; closed = true })

  unfoldable pub detection_batch_queue_destroy :
      Heap → DetectionBatchQueue P → Heap × DetectionBatchQueue P
  detection_batch_queue_destroy h q = destroyed h q q.items

  unfoldable pub detection_batch_queue_push :
      DetectionBatchQueue P → P → DetectionBatchQueue P × Reply
  detection_batch_queue_push q batch =
      if not q.closed && (q.count == q.capacity)
      then (q, waits)
      else if q.closed
      then (q, returns (pos 0))
      else (
        record q {
          items = store q.items (set (array q.items) q.tail (some batch));
          tail = add_size q.tail 1 % q.capacity;
          count = add_size q.count 1;
        },
        returns yes_one,
      )

  -- The oldest pointer, which leaves the queue.
  unfoldable pub take_oldest : DetectionBatchQueue P → DetectionBatchQueue P × Option P × Reply
  take_oldest q = (
    record q {
      items = store q.items (set (array q.items) q.head none);
      head = add_size q.head 1 % q.capacity;
      count = q.count - 1;
    },
    get_or (array q.items) q.head none,
    returns yes_one,
  )

  unfoldable pub detection_batch_queue_pop :
      DetectionBatchQueue P → DetectionBatchQueue P × Option P × Reply
  unfolding take_oldest
  detection_batch_queue_pop q =
      if not q.closed && (q.count == 0)
      then (q, none, waits)
      else if (q.count == 0) && q.closed
      then (q, none, returns (pos 0))
      else take_oldest q

  unfoldable pub detection_async_slot_queue_try_pop :
      DetectionBatchQueue P → DetectionBatchQueue P × Option P × Reply
  unfolding take_oldest
  detection_async_slot_queue_try_pop q =
      if ltb 0 q.count
      then take_oldest q
      else if q.closed
      then (q, none, returns (pos 0))
      else (q, none, returns (pos 2))

-- The other two queues, under their own names.
abbrev pub DetectionAsyncSlotQueue : Type 0 → Type 0
DetectionAsyncSlotQueue S = DetectionBatchQueue S

abbrev pub DetectionAsyncMetadataQueue : Type 0 → Type 0
DetectionAsyncMetadataQueue R = DetectionBatchQueue R

module _ {P : Type 0} where
  abbrev pub detection_async_slot_queue_init :
      Heap → DetectionAsyncSlotQueue P → ℕ → Heap × DetectionAsyncSlotQueue P × ℤ
  detection_async_slot_queue_init h q capacity = detection_batch_queue_init h q capacity

  abbrev pub detection_async_slot_queue_close :
      DetectionAsyncSlotQueue P → DetectionAsyncSlotQueue P
  detection_async_slot_queue_close q = detection_batch_queue_close q

  abbrev pub detection_async_slot_queue_destroy :
      Heap → DetectionAsyncSlotQueue P → Heap × DetectionAsyncSlotQueue P
  detection_async_slot_queue_destroy h q = detection_batch_queue_destroy h q

  abbrev pub detection_async_slot_queue_push :
      DetectionAsyncSlotQueue P → P → DetectionAsyncSlotQueue P × Reply
  detection_async_slot_queue_push q item = detection_batch_queue_push q item

  abbrev pub detection_async_slot_queue_pop :
      DetectionAsyncSlotQueue P → DetectionAsyncSlotQueue P × Option P × Reply
  detection_async_slot_queue_pop q = detection_batch_queue_pop q

  abbrev pub detection_async_metadata_queue_init :
      Heap → DetectionAsyncMetadataQueue P → ℕ → Heap × DetectionAsyncMetadataQueue P × ℤ
  detection_async_metadata_queue_init h q capacity = detection_batch_queue_init h q capacity

  abbrev pub detection_async_metadata_queue_close :
      DetectionAsyncMetadataQueue P → DetectionAsyncMetadataQueue P
  detection_async_metadata_queue_close q = detection_batch_queue_close q

  abbrev pub detection_async_metadata_queue_destroy :
      Heap → DetectionAsyncMetadataQueue P → Heap × DetectionAsyncMetadataQueue P
  detection_async_metadata_queue_destroy h q = detection_batch_queue_destroy h q

  abbrev pub detection_async_metadata_queue_push :
      DetectionAsyncMetadataQueue P → P → DetectionAsyncMetadataQueue P × Reply
  detection_async_metadata_queue_push q item = detection_batch_queue_push q item

  abbrev pub detection_async_metadata_queue_pop :
      DetectionAsyncMetadataQueue P → DetectionAsyncMetadataQueue P × Option P × Reply
  detection_async_metadata_queue_pop q = detection_batch_queue_pop q
