-- ===== src/Runner/Hardware/Emit.antt =====
-- pipeline/pipeline_runner.c: the output of one batch, by its reply.
use video_compute_pipeline.Prelude.{
  ◌+◌, ◌≡◌, refl, ap₂, ◌∙◌, Bool, true, false, not, ◌&&◌, ◌⊎◌, inl, inr, List, ◌++◌, arith,
  if_cases, ◌==◌,
}
use video_compute_pipeline.Prelude.Int.{ℤ, pos, pos_part, is_neg, success, failure}
use video_compute_pipeline.FramePool.{Reply, waits, returns}
use video_compute_pipeline.DetectionResult.{DetectionResult}
use video_compute_pipeline.Yolo.{Detection}
use video_compute_pipeline.Runner.BatchQueue.{DetectionBatchQueue, detection_batch_queue_push}
use video_compute_pipeline.Runner.Hardware.{
  HwServices, clear, detection_hw_fail, release_hw_frame_batch, detection_recycle_batch,
}
use video_compute_pipeline.Runner.Hardware.Output.{
  Batch, Context, output_slots, detection_output_and_recycle_batch,
}
use video_compute_pipeline.Runner.Hardware.Log.{
  IsLogged, results_of, Written, output_slots-Written, release_hw_frame_batch-log,
}

-- The queue is open and full.
abbrev pub IsFull : {P : Type 0} → DetectionBatchQueue P → Type 0
IsFull q = (q.closed ≡ false) × (q.count ≡ q.capacity)

-- What a push replies.
abbrev PushReply : {P : Type 0} → DetectionBatchQueue P × Reply → Type 0
PushReply out =
    ((out.1 ≡ waits) × IsFull out.0) ⊎ ((r : ℤ) × (out.1 ≡ returns r) × (is_neg r ≡ false))

push-PushReply :
    {P : Type 0} (q : DetectionBatchQueue P) (p : P) → PushReply (detection_batch_queue_push q p)
unfolding detection_batch_queue_push
push-PushReply q p =
    if_cases PushReply (not q.closed && (q.count == q.capacity))
      (λ e. inl (refl, (ground (arith, e), ground (arith, e))))
      λ e. if_cases PushReply q.closed (λ f. inr (pos 0, refl, refl)) (λ f. inr (pos 1, refl, refl))

module _ {T F R W : Type 0} (s : HwServices T F R W)
    (log : W → List (DetectionResult (Detection F R))) (l : IsLogged s log) where
  pub record Recycled (ctx : Context s) (out : Context s × Reply) : Type 0 where
    pub logged : log out.0.world ≡ log ctx.world
    pub next : out.0.next_frame_id ≡ ctx.next_frame_id
    pub failed : out.0.failed ≡ ctx.failed
    pub reply : (out.1 ≡ returns success) ⊎ ((out.1 ≡ waits) × IsFull out.0.free_batch_queue)

  pub recycle-Recycled :
      (ctx : Context s) (b : Batch s) → Recycled ctx (detection_recycle_batch s ctx b)
  unfolding detection_recycle_batch
  recycle-Recycled ctx b =
      if_cases (Recycled ctx) ctx.failed
        (λ e. record { logged = logged; next = refl; failed = refl; reply = inl refl })
        (λ e. record {
          logged = logged;
          next = refl;
          failed = refl;
          reply = elim (push-PushReply ctx.free_batch_queue emptied) [
            | inl (w, full) ↦ rw w (inr (refl, full))
            | inr (r, w, g) ↦ rw (w, g) (inl refl)
          ];
        })
    where
      logged : log (release_hw_frame_batch s ctx.world b).0 ≡ log ctx.world
      logged = release_hw_frame_batch-log s log l ctx.world b

      emptied : Batch s
      emptied = clear s (release_hw_frame_batch s ctx.world b).1

  -- What a call that puts batches out does, by its reply.
  pub data Emission (ctx : Context s) (b : Batch s) (out : Context s × Reply) : Type 0 where
    blocked : out.1 ≡ waits → IsFull out.0.free_batch_queue → Emission ctx b out
    gave_up : out.1 ≡ returns failure → out.0.failed ≡ true → Emission ctx b out
    emitted :
        out.1 ≡ returns success
        → out.0.next_frame_id ≡ ctx.next_frame_id + pos_part b.valid_frames
        → log out.0.world ≡ log ctx.world ++ results_of s b
        → Emission ctx b out

  -- `detection_output_and_recycle_batch`.
  pub output-Emission :
      (ctx : Context s) (b : Batch s) → Emission ctx b (detection_output_and_recycle_batch s ctx b)
  unfolding detection_output_and_recycle_batch detection_hw_fail results_of
  output-Emission ctx b =
      if_cases (Emission ctx b) (not out.2)
        (λ e. gave_up refl (recycle-Recycled (detection_hw_fail out.0) out.1).failed)
        (λ e. by_reply (done out.2 e) recycled.reply)
    where
      out : Context s × Batch s × Bool
      out = output_slots s (pos_part b.valid_frames) 0 ctx b

      w : Written s log l (pos_part b.valid_frames) 0 ctx b out
      w = output_slots-Written s log l (pos_part b.valid_frames) 0 ctx b

      ctx' : Context s
      ctx' = record out.0 { next_frame_id = out.0.next_frame_id + pos_part out.1.valid_frames }

      recycled : Recycled ctx' (detection_recycle_batch s ctx' out.1)
      recycled = recycle-Recycled ctx' out.1

      done : (x : Bool) → not x ≡ false → x ≡ true
      done x e = ground (arith, e)

      by_reply :
          out.2 ≡ true
          → ((detection_recycle_batch s ctx' out.1).1 ≡ returns success)
            ⊎ (((detection_recycle_batch s ctx' out.1).1 ≡ waits)
                × IsFull (detection_recycle_batch s ctx' out.1).0.free_batch_queue)
          → Emission ctx b (detection_recycle_batch s ctx' out.1)
      by_reply d (inl e) =
          emitted e (recycled.next ∙ ap₂ (λ x y. x + pos_part y) w.next w.valid)
            (recycled.logged ∙ w.logged d)
      by_reply d (inr (e, full)) = blocked e full
