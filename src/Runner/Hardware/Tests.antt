-- ===== src/Runner/Hardware/Tests.antt =====
-- Runs of the main thread's loop of pipeline/pipeline_runner.c on two batches, the second of which is
-- completed first. A timing is the index of its frame, and the file of detections is a list.
use video_compute_pipeline.Prelude.{
  ℕ, ◌+◌, ◌*◌, ◌≡◌, refl, true, false, none, some, List, [], ◌∷◌, ◌++◌, ltb,
}
use video_compute_pipeline.Prelude.Int.{ℤ, pos, pos_part, success}
use video_compute_pipeline.FramePool.{returns}
use video_compute_pipeline.Frame.Tests.{heap_without}
use video_compute_pipeline.DetectionResult.{DetectionResult}
use video_compute_pipeline.Yolo.{Detection}
use video_compute_pipeline.FrameBatch.CudaFrame.{cuda_nv12_frame_init}
use video_compute_pipeline.FrameBatch.{frame_batch_init}
use video_compute_pipeline.Runner.BatchQueue.{
  DetectionBatchQueue, zeroed, detection_batch_queue_push,
}
use video_compute_pipeline.Memory.{calloc}
use video_compute_pipeline.Runner.Hardware.PendingBatch.{
  detection_pending_batch_insert, detection_pending_batch_take, unlink, link,
}
use video_compute_pipeline.Runner.Hardware.{HwServices, detection_recycle_batch}
use video_compute_pipeline.Runner.Hardware.Output.{
  Batch, Context, Completed, detection_batch_first_frame_id, detection_output_batch_ordered,
  next_step, ready_round, output_ready, detection_output_and_recycle_batch, output_slots,
  output_slot, encode, output_all,
}
use video_compute_pipeline.FrameBatch.{frame_batch_clear}
use video_compute_pipeline.Runner.Hardware.Threads.{fill_batch, decode_slots}

abbrev detection : ℕ → Detection ℕ ℕ
detection x = record {
  frame_index = pos 0;
  timestamp_ms = 0;
  class_id = pos 1;
  confidence = 9;
  x1 = x;
  y1 = x;
  x2 = x + 2;
  y2 = x + 3;
}

abbrev Written : Type 0
Written = List (DetectionResult (Detection ℕ ℕ))

abbrev services : HwServices ℤ ℕ ℕ Written
services = record {
  zero_timing = pos 0;
  zero_detection = detection 0;
  zero_double = 0;
  frame_index = λ t. t;
  read_frame = λ w f. (w, f, pos 1);
  release_frame = λ w f. (w, cuda_nv12_frame_init 0);
  decoded = λ w t. t;
  with_index = λ i t. i;
  run_batch = λ w i b. (w, b, success);
  is_positive = λ x. ltb 0 x;
  fps = 5;
  time_at = λ i rate. 200 * pos_part i;
  write_frame = λ w r. (w ++ (r ∷ []), success);
  draw_boxes = λ w f r t. (w, t, success);
  write_cuda = λ w f t. (w, t, success);
  summed = λ w r t. t;
  add_frame_result = λ w t. (w, success);
}

abbrev result : ℕ → DetectionResult (Detection ℕ ℕ)
result x = record {
  items = some (record { address = x; contents = detection x ∷ [] });
  count = 1;
  capacity = 1;
}

-- The frames 0 and 1, and the frame 2.
abbrev first_batch : Batch services
first_batch = record frame_batch_init {
  capacity = pos 2;
  valid_frames = pos 2;
  use_cuda_frames = true;
  timings = some (record { address = 7; contents = pos 0 ∷ pos 1 ∷ [] });
  detections = some (record { address = 8; contents = result 10 ∷ result 11 ∷ [] });
}

abbrev second_batch : Batch services
second_batch = record frame_batch_init {
  capacity = pos 2;
  valid_frames = pos 1;
  use_cuda_frames = true;
  timings = some (record { address = 17; contents = pos 2 ∷ pos 0 ∷ [] });
  detections = some (record { address = 18; contents = result 20 ∷ result 21 ∷ [] });
}

abbrev free_queue : DetectionBatchQueue (Batch services)
free_queue = record zeroed {
  items = some (record { address = 4; contents = none ∷ none ∷ [] });
  capacity = 2;
}

abbrev at_start : Context services
at_start = record {
  world = [];
  draw = false;
  enable_benchmark = true;
  max_frames = pos 0;
  free_batch_queue = free_queue;
  decoded_batch_queue = zeroed;
  completed_batch_queue = zeroed;
  failed = false;
  next_frame_id = 0;
  active_workers = 1;
}

abbrev completed : List (Completed services)
completed =
    record { batch = second_batch; free_batch_queue = free_queue; failed = false }
    ∷ record { batch = first_batch; free_batch_queue = free_queue; failed = false }
    ∷ []

-- The batch of frame 2 waits for that of frames 0 and 1.
run : (output_all services (heap_without 9) at_start [] completed).reply ≡ returns success
unfolding output_all detection_output_batch_ordered next_step ready_round output_ready
    detection_batch_first_frame_id detection_pending_batch_insert calloc
    detection_output_and_recycle_batch output_slots output_slot encode detection_recycle_batch
    detection_batch_queue_push detection_pending_batch_take unlink link
run = refl

-- Frame 5 is the last one, since six frames are wanted.
abbrev for_six : Context services
for_six = record at_start { max_frames = pos 6 }

one_more : (fill_batch services for_six first_batch 5).1 ≡ 6
unfolding fill_batch decode_slots frame_batch_clear
one_more = refl
