-- ===== src/FrameBatch/Alloc.antt =====
-- pipeline/frame_batch.c: what `frame_batch_alloc` allocates is the batch's, or freed again if it fails.
use video_compute_pipeline.Prelude.{ℕ, ◌≡◌, Bool, some, replicate}
use video_compute_pipeline.Prelude.Int.{ℤ}
use video_compute_pipeline.Memory.{Heap, Block}
use video_compute_pipeline.Frame
use video_compute_pipeline.Frame.{Frame}
use video_compute_pipeline.DetectionResult
use video_compute_pipeline.DetectionResult.{DetectionResult}
use video_compute_pipeline.FrameBatch.{FrameBatch, frame_batch_init}
use video_compute_pipeline.FrameBatch.Settle.{Settles}

module _ {T D R : Type 0} (zero_timing : T) (zero_detection : D) (zero_double : R) (a : ℕ) where
  abbrev Goes : Heap → ℕ → Heap × FrameBatch T D R × ℤ → Type 0
  Goes h had out = Settles zero_timing zero_detection zero_double a h had out

  -- The batch that has its array of detections, as calloc returned it.
  abbrev IsBlank : Block (DetectionResult D) → Type 0
  IsBlank ds = (n : ℕ) × (ds.contents ≡ replicate n DetectionResult.init)

  module _ (room : ℕ) (capacity : ℤ) (use_cuda : Bool) (ds : Block (DetectionResult D))
      (blank : IsBlank ds) (ts : Block T) where
    abbrev started : FrameBatch T D R
    started = record frame_batch_init {
      capacity = capacity;
      use_cuda_frames = use_cuda;
      detections = some ds;
      timings = some ts;
    }
