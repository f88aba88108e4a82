-- ===== src/FrameBatch.antt =====
-- pipeline/frame_batch.c and include/pipeline/frame_batch.h: the frames of a batch with their
-- detections and timings. The types of a detection and of a timing are parameters, each with its value
-- of all zeros, and so is the machine's double `R`. An array that calloc has just returned holds the
-- values that the loops of `frame_batch_alloc` then write into it.
pub mod CudaFrame
pub mod Ledger
pub mod Settle
pub mod Alloc
pub mod Tests
use video_compute_pipeline.Prelude.{
  ℕ, zero, suc, Bool, true, false, not, ◌||◌, Option, none, some, List, [], ◌∷◌, map, replicate,
  ◌==◌, if◌then◌else◌,
}
use video_compute_pipeline.Prelude.Int.{ℤ, pos, pos_part, is_pos, eq_ℤ, success, failure}
use video_compute_pipeline.Memory.{Heap, Block, calloc, free as free_block, is_some}
use video_compute_pipeline.Frame
use video_compute_pipeline.Frame.{Frame, nv12}
use video_compute_pipeline.DetectionResult
use video_compute_pipeline.DetectionResult.{DetectionResult}
use CudaFrame.{CudaNv12Frame, cuda_nv12_frame_init, cuda_nv12_frame_clear}

pub record FrameBatch (T D R : Type 0) : Type 0 where
  pub capacity : ℤ
  pub valid_frames : ℤ
  pub use_cuda_frames : Bool
  pub cpu_frames : Option (Block Frame)
  pub cuda_frames : Option (Block (CudaNv12Frame R))
  pub detections : Option (Block (DetectionResult D))
  pub timings : Option (Block T)

abbrev pub array : {A : Type 0} → Option (Block A) → List A
array none = []
array (some b) = b.contents

abbrev pub store : {A : Type 0} → Option (Block A) → List A → Option (Block A)
store none l = none
store (some b) l = some (record b { contents = l })

-- `detection_result_free` and `frame_free` of every element.
unfoldable pub free_results : {D : Type 0} → Heap → List (DetectionResult D) → Heap
free_results h [] = h
free_results h (r ∷ rs) = free_results (DetectionResult.free h r).0 rs

unfoldable pub free_frames : Heap → List Frame → Heap
free_frames h [] = h
free_frames h (f ∷ fs) = free_frames (Frame.free h f).0 fs

-- The loop of `frame_batch_alloc_cpu_nv12_frames`, which stops at the first failure.
unfoldable pub alloc_frames : ℤ → ℤ → Heap → List Frame → Heap × List Frame × ℤ
alloc_frames width height h [] = (h, [], success)
alloc_frames width height h (f ∷ fs) =
    let (h', f', result) = Frame.alloc h f width height nv12 in
    let rest = alloc_frames width height h' fs in
    if not (eq_ℤ result success) then (h', f' ∷ fs, failure) else (rest.0, f' ∷ rest.1, rest.2)

module _ {T D R : Type 0} where
  abbrev pub frame_batch_init : FrameBatch T D R
  frame_batch_init = record {
    capacity = pos 0;
    valid_frames = pos 0;
    use_cuda_frames = false;
    cpu_frames = none;
    cuda_frames = none;
    detections = none;
    timings = none;
  }

  -- The capacity is the length of each array that is there.
  unfoldable pub frame_batch_free : Heap → FrameBatch T D R → Heap × FrameBatch T D R
  unfolding free_results free_frames
  frame_batch_free h b =
      let h1 = free_results h (array b.detections) in
      let h2 = free_frames h1 (array b.cpu_frames) in
      let h3 = free_block (free_block h2 b.cpu_frames) b.cuda_frames in
      (free_block (free_block h3 b.detections) b.timings, frame_batch_init)

  unfoldable pub frame_batch_alloc_cpu_nv12_frames :
      Heap → FrameBatch T D R → ℤ → ℤ → Heap × FrameBatch T D R × ℤ
  unfolding alloc_frames
  frame_batch_alloc_cpu_nv12_frames h b width height =
      if b.use_cuda_frames
        || (not (is_some b.cpu_frames) || (not (is_pos width) || not (is_pos height)))
      then (h, b, failure)
      else let (h', fs, result) = alloc_frames width height h (array b.cpu_frames) in
        (h', record b { cpu_frames = store b.cpu_frames fs }, result)

  abbrev pub failed : Heap → FrameBatch T D R → Heap × FrameBatch T D R × ℤ
  failed h b = let (h', b') = frame_batch_free h b in (h', b', failure)

-- The loop that makes room for the detections of each frame; `false`: an allocation failed.
unfoldable pub alloc_results :
    {D : Type 0} → D → ℕ → Heap → List (DetectionResult D) → Heap × List (DetectionResult D) × Bool
alloc_results zero_detection room h [] = (h, [], true)
alloc_results zero_detection room h (r ∷ rs) =
    let (h', r', result) = DetectionResult.alloc zero_detection h DetectionResult.init room in
    let rest = alloc_results zero_detection room h' rs in
    if not (eq_ℤ result success) then (h', r' ∷ rs, false) else (rest.0, r' ∷ rest.1, rest.2)

module _ {T D R : Type 0} (zero_timing : T) (zero_detection : D) (zero_double : R) where
  -- `frame_batch_alloc` from that loop on.
  unfoldable pub fill_results : ℕ → Heap → FrameBatch T D R → Heap × FrameBatch T D R × ℤ
  fill_results room h b =
      let (h', rs, done) = alloc_results zero_detection room h (array b.detections) in
      let b' = record b { detections = store b.detections rs } in
      if done then (h', b', success) else failed h' b'

  -- The array of frames is there or not.
  abbrev pub with_cuda_frames :
      ℕ → Heap → FrameBatch T D R → Option (Block (CudaNv12Frame R)) → Heap × FrameBatch T D R × ℤ
  with_cuda_frames room h b none = failed h b
  with_cuda_frames room h b (some fs) = fill_results room h (record b { cuda_frames = some fs })

  abbrev pub with_cpu_frames :
      ℕ → Heap → FrameBatch T D R → Option (Block Frame) → Heap × FrameBatch T D R × ℤ
  with_cpu_frames room h b none = failed h b
  with_cpu_frames room h b (some fs) = fill_results room h (record b { cpu_frames = some fs })

  -- `frame_batch_alloc` once the arrays of the detections and of the timings are there.
  unfoldable pub with_frames : ℕ → Heap → FrameBatch T D R → Heap × FrameBatch T D R × ℤ
  with_frames room h b =
      let n = pos_part b.capacity in
      if b.use_cuda_frames
      then (let (h', fs) = calloc h (replicate n (cuda_nv12_frame_init zero_double)) in
          with_cuda_frames room h' b fs)
      else let (h', fs) = calloc h (replicate n Frame.init) in with_cpu_frames room h' b fs

  abbrev pub with_arrays :
      ℕ
      → Heap
      → FrameBatch T D R
      → Option (Block (DetectionResult D))
      → Option (Block T)
      → Heap × FrameBatch T D R × ℤ
  with_arrays room h b none timings = failed h (record b { timings = timings })
  with_arrays room h b (some ds) none = failed h (record b { detections = some ds })
  with_arrays room h b (some ds) (some ts) =
      with_frames room h (record b { detections = some ds; timings = some ts })

  unfoldable pub frame_batch_alloc :
      Heap → FrameBatch T D R → ℤ → Bool → ℕ → Heap × FrameBatch T D R × ℤ
  frame_batch_alloc h b capacity use_cuda_frames room =
      let n = pos_part capacity in
      let (h1, detections) = calloc h (replicate n DetectionResult.init) in
      let (h2, timings) = calloc h1 (replicate n zero_timing) in
      if not (is_pos capacity) || room == 0
      then (h, b, failure)
      else with_arrays room h2
          (record frame_batch_init { capacity = capacity; use_cuda_frames = use_cuda_frames })
          detections timings

  unfoldable pub frame_batch_clear : FrameBatch T D R → FrameBatch T D R
  frame_batch_clear b = record b {
    valid_frames = pos 0;
    timings = store b.timings (map (λ t. zero_timing) (array b.timings));
    detections = store b.detections (map DetectionResult.clear (array b.detections));
    cuda_frames =
        (if b.use_cuda_frames
          then store b.cuda_frames (map (cuda_nv12_frame_clear zero_double) (array b.cuda_frames))
          else b.cuda_frames);
  }
