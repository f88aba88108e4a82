-- ===== src/FrameBatch/Ledger.antt =====
-- pipeline/frame_batch.c: the blocks that a batch owns, and that freeing it frees each once.
use video_compute_pipeline.Prelude.{
  ℕ, ◌+◌, ◌≡◌, refl, ap, ◌∙◌, Bool-cases, inl, inr, List, [], ◌∷◌, ◌++◌, Option, none, some,
  replicate, ◌==◌, if_ind, not, ◌||◌,
}
use video_compute_pipeline.Prelude.Int.{ℤ, is_pos, eq_ℤ, success}
use video_compute_pipeline.Prelude.Count.{count, SameItems, count-cons, items}
use video_compute_pipeline.Memory
use video_compute_pipeline.Memory.{Heap, Block, calloc, is_some}
use video_compute_pipeline.Frame
use video_compute_pipeline.Frame.{Frame, nv12}
use video_compute_pipeline.Frame.Balance.{alloc-Balanced}
use video_compute_pipeline.Frame.Ledger.{address, owned, count-retire}
use video_compute_pipeline.DetectionResult
use video_compute_pipeline.DetectionResult.{DetectionResult, with_items}
use video_compute_pipeline.FrameBatch.{
  FrameBatch, array, store, free_results, free_frames, alloc_frames, frame_batch_free,
  frame_batch_alloc_cpu_nv12_frames,
}

-- calloc: what it returns is granted.
pub calloc-count :
    {A : Type 0} (a : ℕ) (h : Heap) (zeroed : List A)
    → let (h', b) = calloc h zeroed in
      (count a h'.granted ≡ count a (address b) + count a h.granted) × (h'.freed ≡ h.freed)
unfolding calloc
calloc-count a h zeroed = elim (Bool-cases (h.grants h.calls)) [
  | inl e ↦ rw e (count-cons a h.calls h.granted, refl)
  | inr e ↦ rw e (omega items, refl)
]

module _ {D : Type 0} where
  abbrev pub results_owned : List (DetectionResult D) → List ℕ
  results_owned [] = []
  results_owned (r ∷ rs) = address r.items ++ results_owned rs

  -- `detection_result_alloc`: what calloc has returned is with the result or freed.
  with_items-count :
      (a : ℕ) (h : Heap) (r : DetectionResult D) (capacity : ℕ) (b : Option (Block D))
      → let out = with_items h r capacity b in
        count a out.0.freed + count a (address out.1.items)
        ≡ count a h.freed + (count a (address r.items) + count a (address b))
  unfolding with_items
  with_items-count a h r capacity none = omega items
  with_items-count a h r capacity (some b) = omega (items, count-retire a r.items h.freed)

  with_items_granted :
      (h : Heap) (r : DetectionResult D) (capacity : ℕ) (b : Option (Block D))
      → (with_items h r capacity b).0.granted ≡ h.granted
  unfolding with_items
  with_items_granted h r capacity none = refl
  with_items_granted h r capacity (some b) = refl

  pub alloc-count :
      (zero_detection : D) (a : ℕ) (h : Heap) (r : DetectionResult D) (capacity : ℕ)
      → let out = DetectionResult.alloc zero_detection h r capacity in
        count a out.0.freed + (count a (address out.1.items) + count a h.granted)
        ≡ count a h.freed + (count a (address r.items) + count a out.0.granted)
  unfolding DetectionResult.alloc
  alloc-count zero_detection a h r capacity = if_ind P (capacity == 0) refl (
      rw (with_items_granted made.0 r capacity made.1) (
        omega (
          items,
          with_items-count a made.0 r capacity made.1,
          (calloc-count a h (replicate capacity zero_detection)).0,
          ap (count a) (calloc-count a h (replicate capacity zero_detection)).1,
        )))
    where
      made : Heap × Option (Block D)
      made = calloc h (replicate capacity zero_detection)

      P : Heap × DetectionResult D × ℤ → Type 0
      P out =
          count a out.0.freed + (count a (address out.1.items) + count a h.granted)
          ≡ count a h.freed + (count a (address r.items) + count a out.0.granted)

  free_results-count :
      (a : ℕ) (h : Heap) (rs : List (DetectionResult D))
      → count a (free_results h rs).freed ≡ count a h.freed + count a (results_owned rs)
  unfolding free_results
  free_results-count a h [] = omega items
  free_results-count a h (r ∷ rs) =
      omega (
        items,
        count-retire a r.items h.freed,
        free_results-count a (DetectionResult.free h r).0 rs,
      )

  free_results_granted :
      (h : Heap) (rs : List (DetectionResult D)) → (free_results h rs).granted ≡ h.granted
  unfolding free_results
  free_results_granted h [] = refl
  free_results_granted h (r ∷ rs) = free_results_granted (DetectionResult.free h r).0 rs

abbrev pub frames_owned : List Frame → List ℕ
frames_owned [] = []
frames_owned (f ∷ fs) = owned f ++ frames_owned fs

free_frames-count :
    (a : ℕ) (h : Heap) (fs : List Frame)
    → count a (free_frames h fs).freed ≡ count a h.freed + count a (frames_owned fs)
unfolding free_frames
free_frames-count a h [] = omega items
free_frames-count a h (f ∷ fs) =
    omega (items, count-retire a f.pixels h.freed, free_frames-count a (Frame.free h f).0 fs)

free_frames_granted : (h : Heap) (fs : List Frame) → (free_frames h fs).granted ≡ h.granted
unfolding free_frames
free_frames_granted h [] = refl
free_frames_granted h (f ∷ fs) = free_frames_granted (Frame.free h f).0 fs

module _ {T D R : Type 0} where
  -- The four arrays, the frames and the detections.
  abbrev pub batch_owned : FrameBatch T D R → List ℕ
  batch_owned b =
      (address b.detections ++ results_owned (array b.detections))
      ++ (address b.cpu_frames ++ frames_owned (array b.cpu_frames))
      ++ address b.cuda_frames
      ++ address b.timings

  -- `frame_batch_free` frees every block of the batch once, and the batch owns none afterwards.
  pub frame_batch_free-SameItems :
      (h : Heap) (b : FrameBatch T D R)
      → let (h', b') = frame_batch_free h b in
        (batch_owned b' ≡ []) × SameItems h'.freed (h.freed ++ batch_owned b)
  unfolding frame_batch_free
  frame_batch_free-SameItems h b = (
    refl,
    λ a.
        let h1 = free_results h (array b.detections) in
        let h2 = free_frames h1 (array b.cpu_frames) in
        let h3 = Memory.free h2 b.cpu_frames in
        let h4 = Memory.free h3 b.cuda_frames in
        let h5 = Memory.free h4 b.detections in
        omega (
          items,
          free_results-count a h (array b.detections),
          free_frames-count a h1 (array b.cpu_frames),
          count-retire a b.cpu_frames h2.freed,
          count-retire a b.cuda_frames h3.freed,
          count-retire a b.detections h4.freed,
          count-retire a b.timings h5.freed,
        ),
  )

  pub frame_batch_free_granted :
      (h : Heap) (b : FrameBatch T D R) → (frame_batch_free h b).0.granted ≡ h.granted
  unfolding frame_batch_free
  frame_batch_free_granted h b =
      free_frames_granted (free_results h (array b.detections)) (array b.cpu_frames)
      ∙ free_results_granted h (array b.detections)

alloc_frames-count :
    (a : ℕ) (width height : ℤ) (h : Heap) (fs : List Frame)
    → let out = alloc_frames width height h fs in
      count a out.0.freed + (count a (frames_owned out.1) + count a h.granted)
      ≡ count a h.freed + (count a (frames_owned fs) + count a out.0.granted)
unfolding alloc_frames
alloc_frames-count a width height h [] = refl
alloc_frames-count a width height h (f ∷ fs) =
    if_ind P (not (eq_ℤ first.2 success)) (omega (items, alloc-Balanced h f width height nv12 a)) (
      omega (
        items,
        alloc-Balanced h f width height nv12 a,
        alloc_frames-count a width height first.0 fs,
      ))
  where
    first : Heap × Frame × ℤ
    first = Frame.alloc h f width height nv12

    P : Heap × List Frame × ℤ → Type 0
    P out =
        count a out.0.freed + (count a (frames_owned out.1) + count a h.granted)
        ≡ count a h.freed + (count a (frames_owned (f ∷ fs)) + count a out.0.granted)

alloc_frames-stored :
    (a : ℕ) (width height : ℤ) (h : Heap) (fs : Option (Block Frame))
    → let out = alloc_frames width height h (array fs) in
      let after = store fs out.1 in
      count a out.0.freed
        + (count a (address after) + count a (frames_owned (array after)) + count a h.granted)
      ≡ count a h.freed
        + (count a (address fs) + count a (frames_owned (array fs)) + count a out.0.granted)
unfolding alloc_frames
alloc_frames-stored a width height h none = refl
alloc_frames-stored a width height h (some b) =
    omega (items, alloc_frames-count a width height h b.contents)

-- `frame_batch_alloc_cpu_nv12_frames`, whatever it returns: no block is lost, duplicated or freed twice.
pub frame_batch_alloc_cpu_nv12_frames-SameItems :
    {T D R : Type 0} (h : Heap) (b : FrameBatch T D R) (width height : ℤ)
    → let out = frame_batch_alloc_cpu_nv12_frames h b width height in
      SameItems
        (out.0.freed ++ batch_owned out.1 ++ h.granted)
        (h.freed ++ batch_owned b ++ out.0.granted)
unfolding frame_batch_alloc_cpu_nv12_frames
frame_batch_alloc_cpu_nv12_frames-SameItems {T} {D} {R} h b width height a =
    if_ind P
      (b.use_cuda_frames
        || (not (is_some b.cpu_frames) || (not (is_pos width) || not (is_pos height))))
      refl (omega (items, alloc_frames-stored a width height h b.cpu_frames))
  where
    P : Heap × FrameBatch T D R × ℤ → Type 0
    P out =
        count a (out.0.freed ++ batch_owned out.1 ++ h.granted)
        ≡ count a (h.freed ++ batch_owned b ++ out.0.granted)
