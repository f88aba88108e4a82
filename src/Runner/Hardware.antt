-- ===== src/Runner/Hardware.antt =====
-- pipeline/pipeline_runner.c: the context of the detection pipeline that decodes on the GPU, and the
-- output of its batches. A pointer to a batch is the batch, which one thread has at a time. What FFmpeg,
-- CUDA, the clock and the files do is a parameter over a state `W` of its own. A timing is of type `T`;
-- `F` and `R` are the machine's float and double. A function that waits in a queue replies `waits`.
-- Progress messages are left out.
pub mod PendingBatch
pub mod Output
pub mod Threads
pub mod Release
pub mod Log
pub mod Emit
pub mod Reorder
pub mod Chain
pub mod Accept
pub mod Order
pub mod Tests
use video_compute_pipeline.Prelude.{
  ℕ, zero, suc, ◌+◌, ◌-◌, Bool, true, false, not, ◌||◌, Option, none, some, List, [], ◌∷◌, get_or,
  set, ◌==◌, if◌then◌else◌,
}
use video_compute_pipeline.Prelude.Int.{
  ℤ, pos, negsuc, pos_part, is_pos, is_neg, eq_ℤ, success, failure,
}
use video_compute_pipeline.Memory.{Block, is_some}
use video_compute_pipeline.FramePool.{Reply, waits, returns}
use video_compute_pipeline.DetectionResult.{DetectionResult}
use video_compute_pipeline.Yolo.{Detection}
use video_compute_pipeline.FrameBatch.CudaFrame.{CudaNv12Frame, cuda_nv12_frame_init}
use video_compute_pipeline.FrameBatch.{FrameBatch, array, store, frame_batch_clear}
use video_compute_pipeline.Runner.BatchQueue.{
  DetectionBatchQueue, detection_batch_queue_push, detection_batch_queue_close,
}

pub record HwServices (T F R W : Type 0) : Type 0 where
  pub zero_timing : T
  pub zero_detection : Detection F R
  pub zero_double : R
  pub frame_index : T → ℤ
  -- video_hw_reader_read_cuda_nv12 and video_hw_reader_release_frame.
  pub read_frame : W → CudaNv12Frame R → W × CudaNv12Frame R × ℤ
  pub release_frame : W → CudaNv12Frame R → W × CudaNv12Frame R
  -- The timer's reading, as `decode_ms`, and the index of a frame in its timing.
  pub decoded : W → T → T
  pub with_index : ℤ → T → T
  -- inference_engine_run_cuda_nv12_batch of the worker's engine.
  pub run_batch : W → ℕ → FrameBatch T (Detection F R) R → W × FrameBatch T (Detection F R) R × ℤ
  -- `x > 0.0`, the rate of the video, and the time of a frame at a rate.
  pub is_positive : R → Bool
  pub fps : R
  pub time_at : ℤ → R → R
  -- detection_writer_write_frame.
  pub write_frame : W → DetectionResult (Detection F R) → W × ℤ
  -- cuda_overlay_draw_nv12_boxes and video_hw_writer_write_cuda_nv12.
  pub draw_boxes : W → CudaNv12Frame R → DetectionResult (Detection F R) → T → W × T × ℤ
  pub write_cuda : W → CudaNv12Frame R → T → W × T × ℤ
  -- The sums of a timing, with the metadata of the plan and of the detections.
  pub summed : W → DetectionResult (Detection F R) → T → T
  -- benchmark_add_frame_result.
  pub add_frame_result : W → T → W × ℤ

-- The fields of `DetectionHwPipelineContext` that change, and those of the configuration that are read.
pub record DetectionHwPipelineContext (T F R W : Type 0) : Type 0 where
  pub world : W
  pub draw : Bool
  pub enable_benchmark : Bool
  pub max_frames : ℤ
  pub free_batch_queue : DetectionBatchQueue (FrameBatch T (Detection F R) R)
  pub decoded_batch_queue : DetectionBatchQueue (FrameBatch T (Detection F R) R)
  pub completed_batch_queue : DetectionBatchQueue (FrameBatch T (Detection F R) R)
  pub failed : Bool
  pub next_frame_id : ℕ
  pub active_workers : ℕ

module _ {T F R W : Type 0} where
  -- detection_hw_is_failed.
  abbrev pub detection_hw_is_failed : DetectionHwPipelineContext T F R W → Bool
  detection_hw_is_failed ctx = ctx.failed

  unfoldable pub detection_hw_fail :
      DetectionHwPipelineContext T F R W → DetectionHwPipelineContext T F R W
  detection_hw_fail ctx = record ctx {
    failed = true;
    free_batch_queue = detection_batch_queue_close ctx.free_batch_queue;
    decoded_batch_queue = detection_batch_queue_close ctx.decoded_batch_queue;
    completed_batch_queue = detection_batch_queue_close ctx.completed_batch_queue;
  }

  -- The last worker closes the queue of completed batches.
  unfoldable pub detection_inference_worker_finished :
      DetectionHwPipelineContext T F R W → DetectionHwPipelineContext T F R W
  detection_inference_worker_finished ctx = record ctx {
    active_workers = ctx.active_workers - 1;
    completed_batch_queue =
        (if ctx.active_workers == 1
          then detection_batch_queue_close ctx.completed_batch_queue
          else ctx.completed_batch_queue);
  }

-- The pushes of the source test for a negative result or for one that is not positive.
abbrev pub if_returned : {A : Type 0} → Reply → A → (ℤ → A) → A
if_returned waits blocked k = blocked
if_returned (returns r) blocked k = k r

module _ {T F R W : Type 0} (s : HwServices T F R W) where
  -- The loop of `release_hw_frame_batch`.
  unfoldable pub release_frames : W → List (CudaNv12Frame R) → W × List (CudaNv12Frame R)
  release_frames w [] = (w, [])
  release_frames w (f ∷ fs) =
      let (w', f') = if is_some f.av_frame then s.release_frame w f else (w, f) in
      let (w'', fs') = release_frames w' fs in (w'', f' ∷ fs')

  unfoldable pub release_hw_frame_batch :
      W → FrameBatch T (Detection F R) R → W × FrameBatch T (Detection F R) R
  unfolding release_frames
  release_hw_frame_batch w b =
      let (w', fs) = release_frames w (array b.cuda_frames) in
      if not b.use_cuda_frames || not (is_some b.cuda_frames)
      then (w, b)
      else (w', record b { cuda_frames = store b.cuda_frames fs; valid_frames = pos 0 })

  abbrev pub clear : FrameBatch T (Detection F R) R → FrameBatch T (Detection F R) R
  clear b = frame_batch_clear s.zero_timing s.zero_detection s.zero_double b

  -- The batch is released and emptied; unless the pipeline has failed, it is free for the decoder.
  unfoldable pub detection_recycle_batch :
      DetectionHwPipelineContext T F R W
      → FrameBatch T (Detection F R) R
      → DetectionHwPipelineContext T F R W × Reply
  unfolding release_hw_frame_batch
  detection_recycle_batch ctx b =
      let (w, b') = release_hw_frame_batch ctx.world b in
      let (q, reply) = detection_batch_queue_push ctx.free_batch_queue (clear b') in
      if ctx.failed then (record ctx { world = w }, returns success) else (
        record ctx { world = w; free_batch_queue = q },
        if_returned reply waits (λ r. returns (if is_neg r then failure else success)),
      )
