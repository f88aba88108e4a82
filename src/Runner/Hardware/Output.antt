-- ===== src/Runner/Hardware/Output.antt =====
-- pipeline/pipeline_runner.c: what the main thread of the detection pipeline does with the batches that
-- the workers complete: the detections of each frame are written and its video frame is encoded, batch
-- after batch in the order of the video.
use video_compute_pipeline.Prelude.{
  ℕ, zero, suc, ◌+◌, Bool, true, false, not, Option, none, some, List, [], ◌∷◌, get_or, set, length,
  if◌then◌else◌,
}
use video_compute_pipeline.Prelude.Int.{ℤ, pos, negsuc, pos_part, is_pos, eq_ℤ, success, failure}
use video_compute_pipeline.Memory.{Heap}
use video_compute_pipeline.FramePool.{Reply, waits, returns}
use video_compute_pipeline.DetectionResult
use video_compute_pipeline.DetectionResult.{DetectionResult}
use video_compute_pipeline.Yolo.{Detection}
use video_compute_pipeline.FrameBatch.CudaFrame.{CudaNv12Frame, cuda_nv12_frame_init}
use video_compute_pipeline.FrameBatch.{FrameBatch, array, store}
use video_compute_pipeline.Runner.BatchQueue.{DetectionBatchQueue}
use video_compute_pipeline.Runner.Hardware.{
  HwServices, DetectionHwPipelineContext, detection_hw_fail, detection_recycle_batch,
}
use video_compute_pipeline.Runner.Hardware.PendingBatch.{
  PendingBatchNode, detection_pending_batch_insert, detection_pending_batch_take,
}

-- The detections of a frame get its time.
unfoldable pub stamp : {F R : Type 0} → R → ℕ → List (Detection F R) → List (Detection F R)
stamp time zero ds = ds
stamp time (suc n) [] = []
stamp time (suc n) (d ∷ ds) = record d { timestamp_ms = time } ∷ stamp time n ds

unfoldable pub stamped :
    {F R : Type 0} → R → DetectionResult (Detection F R) → DetectionResult (Detection F R)
unfolding stamp
stamped time r = record r { items = store r.items (stamp time r.count (array r.items)) }

abbrev pub is_success : Reply → Bool
is_success waits = false
is_success (returns r) = eq_ℤ r success

abbrev pub failed_unless_waits : Reply → Reply
failed_unless_waits waits = waits
failed_unless_waits (returns r) = returns failure

module _ {T F R W : Type 0} (s : HwServices T F R W) where
  abbrev pub Batch : Type 0
  Batch = FrameBatch T (Detection F R) R

  abbrev pub Context : Type 0
  Context = DetectionHwPipelineContext T F R W

  unfoldable pub detection_batch_first_frame_id : Batch → ℤ
  detection_batch_first_frame_id b =
      if not (is_pos b.valid_frames)
      then negsuc 0
      else s.frame_index (get_or (array b.timings) 0 s.zero_timing)

  -- The time of a frame: its own, or that of its index at the video's rate.
  abbrev pub frame_time : CudaNv12Frame R → T → R
  frame_time frame timing =
      if s.is_positive frame.timestamp_ms
      then frame.timestamp_ms
      else if s.is_positive s.fps
      then s.time_at (s.frame_index timing) s.fps
      else s.zero_double

  -- Drawing and encoding, where boxes are drawn; `false`: one of the two has failed.
  unfoldable pub encode :
      Bool → W → CudaNv12Frame R → DetectionResult (Detection F R) → T → W × T × Bool
  encode draw w frame result timing =
      let (w1, t1, drawn) = s.draw_boxes w frame result timing in
      let (w2, t2, written) = s.write_cuda w1 frame t1 in
      if not draw
      then (w, timing, true)
      else if not (eq_ℤ drawn success)
      then (w1, t1, false)
      else (w2, t2, eq_ℤ written success)

  -- The body of the loop over the frames of a batch.
  unfoldable pub output_slot :
      Context
      → CudaNv12Frame R
      → T
      → DetectionResult (Detection F R)
      → W × T × DetectionResult (Detection F R) × Bool
  output_slot ctx frame timing result =
      let r = stamped (frame_time frame timing) result in
      let (w1, written) = s.write_frame ctx.world r in
      let (w2, t2, encoded) = encode ctx.draw w1 frame r timing in
      let t3 = s.summed w2 r t2 in
      let (w3, added) = s.add_frame_result w2 t3 in
      if not (eq_ℤ written success)
      then (w1, timing, r, false)
      else if not encoded
      then (w2, t2, r, false)
      else if not ctx.enable_benchmark
      then (w2, t3, r, true)
      else (w3, t3, r, eq_ℤ added success)

  abbrev pub frame_at : Batch → ℕ → CudaNv12Frame R
  frame_at b slot = get_or (array b.cuda_frames) slot (cuda_nv12_frame_init s.zero_double)

  abbrev pub timing_at : Batch → ℕ → T
  timing_at b slot = get_or (array b.timings) slot s.zero_timing

  abbrev pub result_at : Batch → ℕ → DetectionResult (Detection F R)
  result_at b slot = get_or (array b.detections) slot DetectionResult.init

  abbrev pub with_slot : Batch → ℕ → T → DetectionResult (Detection F R) → Batch
  with_slot b slot timing result = record b {
    timings = store b.timings (set (array b.timings) slot timing);
    detections = store b.detections (set (array b.detections) slot result);
  }

  -- The loop over the frames: `rounds` are left and `slot` is the next one.
  unfoldable pub output_slots : ℕ → ℕ → Context → Batch → Context × Batch × Bool
  output_slots zero slot ctx b = (ctx, b, true)
  output_slots (suc rounds) slot ctx b =
      let (w, timing, result, done) =
        output_slot ctx (frame_at b slot) (timing_at b slot) (result_at b slot) in
      let ctx' = record ctx { world = w } in
      let b' = with_slot b slot timing result in
      let rest = output_slots rounds (slot + 1) ctx' b' in
      if not done then (ctx', b', false) else rest

  unfoldable pub detection_output_and_recycle_batch : Context → Batch → Context × Reply
  detection_output_and_recycle_batch ctx b =
      let (ctx', b', done) = output_slots (pos_part b.valid_frames) 0 ctx b in
      if not done
      then (let (ctx'', reply) = detection_recycle_batch s (detection_hw_fail ctx') b' in
          (ctx'', returns failure))
      else detection_recycle_batch s
          (record ctx' { next_frame_id = ctx'.next_frame_id + pos_part b'.valid_frames }) b'

  -- What a call has in hand: the heap, the context, the list, and the reply.
  pub record Progress : Type 0 where
    pub heap : Heap
    pub ctx : Context
    pub pending : List (PendingBatchNode Batch)
    pub reply : Reply

  abbrev pub replied : Heap → Context → List (PendingBatchNode Batch) → Reply → Progress
  replied h ctx pending reply = record { heap = h; ctx = ctx; pending = pending; reply = reply }

  -- What follows the output of a batch, by its reply.
  unfoldable pub next_step :
      Context × Reply → Heap → List (PendingBatchNode Batch) → Progress → Progress
  next_step (ctx, reply) h pending more =
      if is_success reply then more else replied h ctx pending (failed_unless_waits reply)

  -- A round of the loop over the pending batches whose turn it is; `go` is the loop.
  unfoldable pub ready_round :
      (Heap → Context → List (PendingBatchNode Batch) → Progress)
      → Context
      → Heap × List (PendingBatchNode Batch) × Option Batch
      → Progress
  unfolding next_step
  ready_round go ctx (h, pending, none) = replied h ctx pending (returns success)
  ready_round go ctx (h, pending, some b) =
      let out = detection_output_and_recycle_batch ctx b in
      next_step out h pending (go h out.0 pending)

  -- Each round takes a node off the list, so a round more than the list's length is enough;
  -- `Runner.Hardware.Reorder` shows it.
  unfoldable pub output_ready : ℕ → Heap → Context → List (PendingBatchNode Batch) → Progress
  unfolding ready_round
  output_ready zero h ctx pending = replied h ctx pending (returns success)
  output_ready (suc fuel) h ctx pending =
      ready_round (output_ready fuel) ctx
        (detection_pending_batch_take h pending (pos ctx.next_frame_id))

  unfoldable pub detection_output_batch_ordered :
      Heap → Context → List (PendingBatchNode Batch) → Batch → Progress
  unfolding output_ready
  detection_output_batch_ordered h ctx pending b =
      let first = detection_batch_first_frame_id b in
      let out = detection_output_and_recycle_batch ctx b in
      let (h', pending', inserted) = detection_pending_batch_insert h pending b first in
      if eq_ℤ first (pos ctx.next_frame_id)
      then next_step out h pending (output_ready (suc (length pending)) h out.0 pending)
      else if eq_ℤ inserted success
      then replied h' ctx pending' (returns success)
      else (let (ctx'', r) = detection_recycle_batch s (detection_hw_fail ctx) b in
          replied h' ctx'' pending' (returns failure))

  -- A completed batch that the main thread takes from the queue, with the queue of free batches as the
  -- decoder has left it, and whether another thread has failed since.
  pub record Completed : Type 0 where
    pub batch : Batch
    pub free_batch_queue : DetectionBatchQueue Batch
    pub failed : Bool

  abbrev pub seen : Context → Completed → Context
  seen ctx c = record ctx {
    free_batch_queue = c.free_batch_queue;
    failed = (if c.failed then true else ctx.failed);
  }

  -- The loop of the main thread over the completed batches, until the queue is closed and empty.
  unfoldable pub output_all :
      Heap → Context → List (PendingBatchNode Batch) → List Completed → Progress
  output_all h ctx pending [] = replied h ctx pending (returns success)
  output_all h ctx pending (c ∷ cs) =
      let p = detection_output_batch_ordered h (seen ctx c) pending c.batch in
      let rest = output_all p.heap p.ctx p.pending cs in if is_success p.reply then rest else p
