-- ===== src/FrameBatch/Settle.antt =====
-- pipeline/frame_batch.c: the last step of `frame_batch_alloc`, which makes room for the detections.
use video_compute_pipeline.Prelude.{
  ℕ, zero, suc, ◌+◌, ◌≡◌, refl, ap, Bool, not, ◌⊎◌, inl, inr, Bool-cases, List, [], some, replicate,
  arith, if_ind,
}
use video_compute_pipeline.Prelude.Int.{ℤ, eq_ℤ, success, failure}
use video_compute_pipeline.Prelude.Count.{count, count-nil, items}
use video_compute_pipeline.Memory.{Heap, calloc}
use video_compute_pipeline.Frame
use video_compute_pipeline.Frame.{Frame}
use video_compute_pipeline.Frame.Ledger.{address}
use video_compute_pipeline.DetectionResult
use video_compute_pipeline.DetectionResult.{DetectionResult}
use video_compute_pipeline.FrameBatch.{
  FrameBatch, array, store, failed, alloc_results, fill_results,
}
use video_compute_pipeline.FrameBatch.Ledger.{
  alloc-count, results_owned, frames_owned, batch_owned, frame_batch_free-SameItems,
  frame_batch_free_granted,
}

module _ {T D R : Type 0} (zero_timing : T) (zero_detection : D) (zero_double : R) (a : ℕ) where
  pub blank_results :
      (n : ℕ) → count a (results_owned (replicate n (DetectionResult.init {D = D}))) ≡ 0
  blank_results zero = count-nil a
  blank_results (suc n) = blank_results n

  pub blank_frames : (n : ℕ) → count a (frames_owned (replicate n Frame.init)) ≡ 0
  blank_frames zero = count-nil a
  blank_frames (suc n) = blank_frames n

  pub no_pixels :
      (n : ℕ) (h : Heap) → count a (frames_owned (array (calloc h (replicate n Frame.init)).1)) ≡ 0
  unfolding calloc
  no_pixels n h = elim (Bool-cases (h.grants h.calls)) [
    | inl e ↦ rw e (blank_frames n)
    | inr e ↦ rw e (count-nil a)
  ]

  -- From the state that holds `had`: every block that was granted is freed or with the batch, and a
  -- call that fails leaves none with it.
  abbrev pub Settles : Heap → ℕ → Heap × FrameBatch T D R × ℤ → Type 0
  Settles h had out =
      (count a out.0.freed + (count a (batch_owned out.1) + count a h.granted)
        ≡ count a h.freed + (had + count a out.0.granted))
      × ((out.2 ≡ success) ⊎ ((out.2 ≡ failure) × (batch_owned out.1 ≡ [])))

  pub failed-Settles :
      (h : Heap) (b : FrameBatch T D R) → Settles h (count a (batch_owned b)) (failed h b)
  failed-Settles h b = (
    omega (
      items,
      (frame_batch_free-SameItems h b).1 a,
      ap (count a) (frame_batch_free-SameItems h b).0,
      ap (count a) (frame_batch_free_granted h b),
    ),
    inr (refl, (frame_batch_free-SameItems h b).0),
  )

  alloc_results-count :
      (room : ℕ) (h : Heap) (n : ℕ)
      → let out = alloc_results zero_detection room h (replicate n DetectionResult.init) in
        count a out.0.freed + (count a (results_owned out.1) + count a h.granted)
        ≡ count a h.freed + count a out.0.granted
  unfolding alloc_results
  alloc_results-count room h zero = omega items
  alloc_results-count room h (suc n) =
      if_ind P (not (eq_ℤ first.2 success))
        (omega (items, blank_results n, alloc-count zero_detection a h DetectionResult.init room))
        (omega (
          items,
          alloc_results-count room first.0 n,
          alloc-count zero_detection a h DetectionResult.init room,
        ))
    where
      first : Heap × DetectionResult D × ℤ
      first = DetectionResult.alloc zero_detection h DetectionResult.init room

      P : Heap × List (DetectionResult D) × Bool → Type 0
      P out =
          count a out.0.freed + (count a (results_owned out.1) + count a h.granted)
          ≡ count a h.freed + count a out.0.granted

  pub fill_results-Settles :
      (room : ℕ) (h : Heap) (b : FrameBatch T D R) (n address : ℕ)
      → let b' = record b {
        detections =
            some (record { address = address; contents = replicate n DetectionResult.init });
      } in
        Settles h
          (count a (batch_owned b'))
          (fill_results zero_timing zero_detection zero_double room h b')
  unfolding fill_results
  fill_results-Settles room h b n address =
      if_ind (Settles h (count a (batch_owned b'))) out.2
        (omega (items, alloc_results-count room h n, blank_results n), inl refl)
        (
          (omega (
            items,
            alloc_results-count room h n,
            blank_results n,
            (failed-Settles out.0 after).0,
          )),
          (failed-Settles out.0 after).1,
        )
    where
      b' : FrameBatch T D R
      b' = record b {
        detections =
            some (record { address = address; contents = replicate n DetectionResult.init });
      }

      out : Heap × List (DetectionResult D) × Bool
      out = alloc_results zero_detection room h (replicate n DetectionResult.init)

      after : FrameBatch T D R
      after = record b' { detections = store b'.detections out.1 }

  -- What was granted on the way is with the batch.
  pub Settles-after :
      (h h' : Heap) (had have : ℕ) (out : Heap × FrameBatch T D R × ℤ)
      → count a h'.freed ≡ count a h.freed
      → have + count a h.granted ≡ had + count a h'.granted
      → Settles h' have out
      → Settles h had out
  Settles-after h h' had have out f g p = (omega (arith, f, g, p.0), p.1)
