-- ===== src/Runner/Hardware/Release.antt =====
-- pipeline/pipeline_runner.c: what is left in the list and in the queues is released at the end. The
-- source gives the batches by the context, of which only the reader is used.
use video_compute_pipeline.Prelude.{
  ℕ, zero, suc, ◌<◌, ◌≡◌, sym, subst, Option, none, some, List, [], ◌∷◌, ltb, arith, if_cases,
  if◌then◌else◌,
}
use video_compute_pipeline.Memory.{Heap, Block}
use video_compute_pipeline.Runner.BatchQueue.{DetectionBatchQueue, take_oldest}
use video_compute_pipeline.Runner.Hardware.{HwServices, release_hw_frame_batch}
use video_compute_pipeline.Runner.Hardware.Output.{Batch}
use video_compute_pipeline.Runner.Hardware.PendingBatch.{PendingBatchNode, free_node}

module _ {T F R W : Type 0} (s : HwServices T F R W) where
  -- The batches of the nodes are not null, since no other is inserted.
  unfoldable pub detection_pending_batch_release_all :
      Heap → W → List (PendingBatchNode (Batch s)) → Heap × W
  detection_pending_batch_release_all h w [] = (h, w)
  detection_pending_batch_release_all h w (n ∷ next) =
      detection_pending_batch_release_all (free_node h n) (release_hw_frame_batch s w n.batch).0
        next

  abbrev pub release_popped : W → Option (Batch s) → W
  release_popped w none = w
  release_popped w (some b) = (release_hw_frame_batch s w b).0

  -- The loop, with a round for each pointer and one that finds the queue empty.
  unfoldable pub release_queued :
      ℕ → W → DetectionBatchQueue (Batch s) → W × DetectionBatchQueue (Batch s)
  release_queued zero w q = (w, q)
  release_queued (suc rounds) w q =
      let (q', batch, reply) = take_oldest q in
      let rest = release_queued rounds (release_popped w batch) q' in
      if ltb 0 q.count then rest else (w, q)

  abbrev release_if :
      W
      → DetectionBatchQueue (Batch s)
      → Option (Block (Option (Batch s)))
      → W × DetectionBatchQueue (Batch s)
  release_if w q none = (w, q)
  release_if w q (some items) = release_queued (suc q.count) w q

  unfoldable pub detection_batch_queue_release_all :
      W → DetectionBatchQueue (Batch s) → W × DetectionBatchQueue (Batch s)
  detection_batch_queue_release_all w q = release_if w q q.items

  -- The rounds are enough: the loop ends with an empty queue.
  release_queued-empty :
      (rounds : ℕ) (w : W) (q : DetectionBatchQueue (Batch s))
      → q.count < rounds
      → (release_queued rounds w q).1.count ≡ 0
  unfolding release_queued take_oldest
  release_queued-empty zero w q lt = absurd (omega (arith, lt))
  release_queued-empty (suc rounds) w q lt =
      if_cases (λ (out : W × DetectionBatchQueue (Batch s)). out.1.count ≡ 0) (ltb 0 q.count)
        (λ e. release_queued-empty rounds _ _ (ground (arith, e, lt))) (λ e. ground (arith, e))

  -- A queue with an array is empty afterwards.
  pub detection_batch_queue_release_all-empty :
      (w : W) (q : DetectionBatchQueue (Batch s)) (items : Block (Option (Batch s)))
      → q.items ≡ some items
      → (detection_batch_queue_release_all w q).1.count ≡ 0
  unfolding detection_batch_queue_release_all
  detection_batch_queue_release_all-empty w q items e =
      subst (λ o. (release_if w q o).1.count ≡ 0) (sym e)
        (release_queued-empty (suc q.count) w q (omega arith))
