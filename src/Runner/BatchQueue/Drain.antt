-- ===== src/Runner/BatchQueue/Drain.antt =====
-- pipeline/pipeline_runner.c: a detection queue from its start to its end.
use video_compute_pipeline.Prelude.{
  ℕ, zero, suc, ◌≡◌, ◌≤◌, refl, sym, ap, ◌∙◌, List, [], ◌∷◌, Option, none, true, false, length,
  replicate, ◌==◌, Bool-cases, ◌⊎◌, inl, inr, if_cases, arith,
}
use video_compute_pipeline.Prelude.Int.{ℤ, pos, success, failure, yes_one}
use video_compute_pipeline.Prelude.Ring.{fresh-IsRing}
use video_compute_pipeline.Memory.{Heap, calloc, size_max}
use video_compute_pipeline.FramePool.{Reply, returns}
use video_compute_pipeline.Runner.BatchQueue.{DetectionBatchQueue, detection_batch_queue_init}
use video_compute_pipeline.Runner.BatchQueue.Refine.{contents, IsQueue}
use video_compute_pipeline.Runner.BatchQueue.Run.{
  Call, pop_call, fifo_run, run, calls_refine, length-contents,
}

module _ {P : Type 0} where
  -- So many pops, and one more.
  abbrev pub drain : ℕ → List (Call P)
  drain zero = pop_call ∷ []
  drain (suc n) = pop_call ∷ drain n

  -- Every pointer in turn, and then the reply 0.
  abbrev pub drained : List (Option P) → List (Option P × Reply)
  drained [] = (none, returns (pos 0)) ∷ []
  drained (p ∷ held) = (p, returns yes_one) ∷ drained held

  fifo_drains :
      (n : ℕ) (held : List (Option P))
      → (fifo_run n (record { held = held; shut = true }) (drain (length held))).1 ≡ drained held
  unfolding fifo_run
  fifo_drains n [] = refl
  fifo_drains n (p ∷ held) = ap (λ l. (p, returns yes_one) ∷ l) (fifo_drains n held)

  -- A thread that pops from a closed queue gets its pointers one after the other, oldest first, and
  -- with the next pop the reply 0, at which its loop ends.
  pub drain_lem :
      (q : DetectionBatchQueue P)
      → IsQueue q
      → q.closed ≡ true
      → (run q (drain q.count)).1 ≡ drained (contents q)
  drain_lem q v e =
      ap (λ r. r.1) (calls_refine q (drain q.count) v).0
      ∙ ap (λ s. (fifo_run q.capacity (record { held = contents q; shut = s }) (drain q.count)).1) e
      ∙ ap (λ n. (fifo_run q.capacity (record { held = contents q; shut = true }) (drain n)).1)
          (sym (length-contents q v))
      ∙ fifo_drains q.capacity (contents q)

  abbrev pub Fresh : ℕ → Heap × DetectionBatchQueue P × ℤ → Type 0
  Fresh capacity out = IsQueue out.1 × (contents out.1 ≡ []) × (out.1.capacity ≡ capacity)

  abbrev pub Made : Heap → ℕ → Heap × DetectionBatchQueue P × ℤ → Type 0
  Made h capacity out =
      ((out.2 ≡ failure) × ((capacity ≡ 0) ⊎ (h.grants h.calls ≡ false)))
      ⊎ ((out.2 ≡ success) × Fresh capacity out)

  -- `detection_batch_queue_init`, for a capacity that a size_t holds, gives an empty queue of that
  -- capacity, or fails because the capacity is 0 or calloc refuses.
  pub detection_batch_queue_init_lem :
      (h : Heap) (q : DetectionBatchQueue P) (capacity : ℕ)
      → capacity ≤ size_max
      → Made h capacity (detection_batch_queue_init h q capacity)
  unfolding detection_batch_queue_init calloc
  detection_batch_queue_init_lem h q capacity small =
      if_cases (Made h capacity) (capacity == 0) (λ z. inl (refl, inl (ground (arith, z))))
        (λ n. elim (Bool-cases (h.grants h.calls)) [
          | inr refused ↦ rw refused (inl (refl, inr refl))
          | inl given ↦ rw given (
              inr (
                refl,
                (
                  record {
                    block = record { address = h.calls; contents = replicate capacity none };
                    stored = refl;
                    ring = fresh-IsRing none capacity (ground (arith, n));
                    small = small;
                  },
                  refl,
                  refl,
                ),
              ))
        ])
