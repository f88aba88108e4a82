-- ===== src/Runner/Hardware/Threads.antt =====
-- pipeline/pipeline_runner.c: the decoder thread and the inference workers of the detection pipeline.
-- Each thread is a state machine: a step is what the thread does from one wait in a queue to the next,
-- and a thread whose step replies that it waits stays where it is. Frame numbers are natural numbers:
-- a video of 2 ^ 31 frames is not decoded.
pub mod Number
pub mod Fill
use video_compute_pipeline.Prelude.{
  ℕ, zero, suc, ◌+◌, Bool, true, false, not, ◌&&◌, ◌||◌, Option, none, some, set, leb,
  if◌then◌else◌,
}
use video_compute_pipeline.Prelude.Int.{pos, pos_part, is_pos, is_neg, eq_ℤ, success}
use video_compute_pipeline.FramePool.{Reply, waits, returns}
use video_compute_pipeline.FrameBatch.CudaFrame.{CudaNv12Frame}
use video_compute_pipeline.FrameBatch.{array, store}
use video_compute_pipeline.Runner.BatchQueue.{
  detection_batch_queue_push, detection_batch_queue_pop, detection_batch_queue_close,
}
use video_compute_pipeline.Runner.Hardware.{
  HwServices, detection_hw_is_failed, detection_hw_fail, detection_inference_worker_finished,
  release_hw_frame_batch, clear,
}
use video_compute_pipeline.Runner.Hardware.Output.{Batch, Context, frame_at, timing_at}

-- Whether the loop over the slots has gone through, met the end, or failed to decode.
pub data Filled : Type 0 where
  through : Filled
  reached_eof : Filled
  broken : Filled

module _ {T F R W : Type 0} (s : HwServices T F R W) where
  abbrev pub has_all : Context s → ℕ → Bool
  has_all ctx frame_id = is_pos ctx.max_frames && leb (pos_part ctx.max_frames) frame_id

  -- The time it took is noted whether a frame was read or not.
  abbrev pub with_read : Batch s → ℕ → CudaNv12Frame R → T → Batch s
  with_read b slot frame timing = record b {
    cuda_frames = store b.cuda_frames (set (array b.cuda_frames) slot frame);
    timings = store b.timings (set (array b.timings) slot timing);
  }

  abbrev pub numbered : Batch s → ℕ → CudaNv12Frame R → T → ℕ → Batch s
  numbered b slot frame timing frame_id =
      record (with_read b slot (record frame { index = pos frame_id })
        (s.with_index (pos frame_id) timing)) { valid_frames = pos (suc (pos_part b.valid_frames)) }

  -- The batch of a thread that gives up.
  abbrev pub drop_batch : Context s → Batch s → Context s
  drop_batch ctx b = record ctx { world = (release_hw_frame_batch s ctx.world b).0 }

  -- The loop over the slots: `rounds` are left and `slot` is the next one.
  unfoldable pub decode_slots : ℕ → ℕ → Context s → Batch s → ℕ → Context s × Batch s × ℕ × Filled
  decode_slots zero slot ctx b frame_id = (ctx, b, frame_id, through)
  decode_slots (suc rounds) slot ctx b frame_id =
      let (w, frame, read) = s.read_frame ctx.world (frame_at s b slot) in
      let timing = s.decoded w (timing_at s b slot) in
      let ctx' = record ctx { world = w } in
      let b' = with_read b slot frame timing in
      let rest =
        decode_slots rounds (slot + 1) ctx' (numbered b slot frame timing frame_id)
          (frame_id + 1) in
      if has_all ctx frame_id
      then (ctx, b, frame_id, reached_eof)
      else if eq_ℤ read (pos 0)
      then (ctx', b', frame_id, reached_eof)
      else if is_neg read
      then (ctx', b', frame_id, broken)
      else rest

  -- Where the decoder thread is: at the top of its loop, with a batch that has a frame, with one that
  -- has none, or after its loop.
  pub data DecoderPlace : Type 0 where
    at_top : DecoderPlace
    with_frames : Batch s → Bool → DecoderPlace
    without_frames : Batch s → DecoderPlace
    over : DecoderPlace

  -- What follows the loop over the slots.
  abbrev pub filled_batch : Context s × Batch s × ℕ × Filled → Context s × ℕ × DecoderPlace
  filled_batch (ctx, b, frame_id, broken) = (detection_hw_fail (drop_batch ctx b), frame_id, over)
  filled_batch (ctx, b, frame_id, through) =
      if eq_ℤ b.valid_frames (pos 0)
      then (ctx, frame_id, without_frames (clear s b))
      else (ctx, frame_id, with_frames b false)
  filled_batch (ctx, b, frame_id, reached_eof) =
      if eq_ℤ b.valid_frames (pos 0)
      then (ctx, frame_id, without_frames (clear s b))
      else (ctx, frame_id, with_frames b true)

  -- A batch from the queue of free batches is cleared and filled.
  unfoldable pub fill_batch : Context s → Batch s → ℕ → Context s × ℕ × DecoderPlace
  fill_batch ctx batch frame_id =
      filled_batch (decode_slots (pos_part batch.capacity) 0 ctx (clear s batch) frame_id)

  -- What follows a pop from the queue of free batches.
  abbrev pub decoder_popped :
      Context s → ℕ → Option (Batch s) → Reply → Context s × ℕ × DecoderPlace
  decoder_popped ctx frame_id batch waits = (ctx, frame_id, at_top)
  decoder_popped ctx frame_id none (returns r) =
      if eq_ℤ r (pos 0) then (ctx, frame_id, over) else (detection_hw_fail ctx, frame_id, over)
  decoder_popped ctx frame_id (some b) (returns r) =
      if eq_ℤ r (pos 0)
      then (ctx, frame_id, over)
      else if is_neg r || detection_hw_is_failed ctx
      then (detection_hw_fail ctx, frame_id, over)
      else fill_batch ctx b frame_id

  abbrev pub decoder_pushed : Context s → ℕ → Batch s → Bool → Reply → Context s × ℕ × DecoderPlace
  decoder_pushed ctx frame_id b eof waits = (ctx, frame_id, with_frames b eof)
  decoder_pushed ctx frame_id b eof (returns r) =
      if not (is_pos r)
      then (drop_batch ctx b, frame_id, over)
      else if eof
      then (ctx, frame_id, over)
      else (ctx, frame_id, at_top)

  abbrev pub decoder_returned : Context s → ℕ → Batch s → Reply → Context s × ℕ × DecoderPlace
  decoder_returned ctx frame_id b waits = (ctx, frame_id, without_frames b)
  decoder_returned ctx frame_id b (returns r) = (ctx, frame_id, over)

  -- A step of `detection_decoder_thread_main`. At the end the queue of decoded batches is closed.
  unfoldable pub detection_decoder_thread_main :
      Context s → ℕ → DecoderPlace → Context s × ℕ × DecoderPlace
  detection_decoder_thread_main ctx frame_id at_top =
      let (q, b, reply) = detection_batch_queue_pop ctx.free_batch_queue in
      if has_all ctx frame_id
      then (ctx, frame_id, over)
      else decoder_popped (record ctx { free_batch_queue = q }) frame_id b reply
  detection_decoder_thread_main ctx frame_id (with_frames b eof) =
      let (q, reply) = detection_batch_queue_push ctx.decoded_batch_queue b in
      decoder_pushed (record ctx { decoded_batch_queue = q }) frame_id b eof reply
  detection_decoder_thread_main ctx frame_id (without_frames b) =
      let (q, reply) = detection_batch_queue_push ctx.free_batch_queue b in
      decoder_returned (record ctx { free_batch_queue = q }) frame_id b reply
  detection_decoder_thread_main ctx frame_id over = (
    record ctx { decoded_batch_queue = detection_batch_queue_close ctx.decoded_batch_queue },
    frame_id,
    over,
  )

  -- Where a worker is: at its start, with an engine or without, at the top of its loop, with a batch
  -- that is done, after its loop, or at its end.
  pub data WorkerPlace : Type 0 where
    started : Bool → WorkerPlace
    waiting : WorkerPlace
    completed : Batch s → WorkerPlace
    finished : WorkerPlace
    ended : WorkerPlace

  abbrev pub worker_popped : ℕ → Context s → Option (Batch s) → Reply → Context s × WorkerPlace
  worker_popped i ctx batch waits = (ctx, waiting)
  worker_popped i ctx none (returns r) =
      if eq_ℤ r (pos 0) then (ctx, finished) else (detection_hw_fail ctx, finished)
  worker_popped i ctx (some b) (returns r) =
      let (w, b', result) = s.run_batch ctx.world i b in
      if eq_ℤ r (pos 0)
      then (ctx, finished)
      else if is_neg r || detection_hw_is_failed ctx
      then (detection_hw_fail (drop_batch ctx b), finished)
      else if not (eq_ℤ result success)
      then (detection_hw_fail (drop_batch (record ctx { world = w }) b'), finished)
      else (record ctx { world = w }, completed b')

  abbrev pub worker_pushed : Context s → Batch s → Reply → Context s × WorkerPlace
  worker_pushed ctx b waits = (ctx, completed b)
  worker_pushed ctx b (returns r) =
      if not (is_pos r)
      then (
        (if detection_hw_is_failed ctx
            then drop_batch ctx b
            else detection_hw_fail (drop_batch ctx b)),
        finished,
      )
      else (ctx, waiting)

  -- A step of `detection_inference_worker_main` of worker `i`.
  unfoldable pub detection_inference_worker_main :
      ℕ → Context s → WorkerPlace → Context s × WorkerPlace
  detection_inference_worker_main i ctx (started true) = (ctx, waiting)
  detection_inference_worker_main i ctx (started false) = (detection_hw_fail ctx, finished)
  detection_inference_worker_main i ctx waiting =
      let (q, b, reply) = detection_batch_queue_pop ctx.decoded_batch_queue in
      worker_popped i (record ctx { decoded_batch_queue = q }) b reply
  detection_inference_worker_main i ctx (completed b) =
      let (q, reply) = detection_batch_queue_push ctx.completed_batch_queue b in
      worker_pushed (record ctx { completed_batch_queue = q }) b reply
  detection_inference_worker_main i ctx finished = (detection_inference_worker_finished ctx, ended)
  detection_inference_worker_main i ctx ended = (ctx, ended)
