-- ===== src/FrameBatch/Tests.antt =====
-- Runs of pipeline/frame_batch.c on a batch of two frames with room for three detections each.
use video_compute_pipeline.Prelude.{ℕ, ◌≡◌, refl, true, false, [], ◌++◌}
use video_compute_pipeline.Prelude.Int.{pos, success, failure}
use video_compute_pipeline.Prelude.Count.{SameItems}
use video_compute_pipeline.Memory.{calloc}
use video_compute_pipeline.Frame.Tests.{heap_without}
use video_compute_pipeline.DetectionResult
use video_compute_pipeline.FrameBatch.{
  FrameBatch, frame_batch_init, frame_batch_alloc, with_frames, fill_results, alloc_results,
  frame_batch_free,
}
use video_compute_pipeline.FrameBatch.Ledger.{batch_owned, frame_batch_free-SameItems}

abbrev empty_batch : FrameBatch ℕ ℕ ℕ
empty_batch = frame_batch_init

-- With no call refused, a batch of frames in the CPU's memory is made.
made : (frame_batch_alloc 0 0 0 (heap_without 9) empty_batch (pos 2) false 3).2 ≡ success
unfolding frame_batch_alloc with_frames fill_results alloc_results calloc DetectionResult.alloc
made = refl

-- The detections of the second frame are not granted.
refused : (frame_batch_alloc 0 0 0 (heap_without 4) empty_batch (pos 2) true 3).2 ≡ failure
unfolding frame_batch_alloc with_frames fill_results alloc_results calloc DetectionResult.alloc
refused = refl

frame_batch_free-SameItems_example :
    let batch = (frame_batch_alloc 0 0 0 (heap_without 9) empty_batch (pos 2) false 3).1 in
    let (h', b') = frame_batch_free (heap_without 9) batch in
    (batch_owned b' ≡ []) × SameItems h'.freed ([] ++ batch_owned batch)
frame_batch_free-SameItems_example =
    frame_batch_free-SameItems (heap_without 9)
      (frame_batch_alloc 0 0 0 (heap_without 9) empty_batch (pos 2) false 3).1
