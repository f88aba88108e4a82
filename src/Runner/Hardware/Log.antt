-- ===== src/Runner/Hardware/Log.antt =====
-- pipeline/pipeline_runner.c: what the output of one batch writes to the file of detections.
use video_compute_pipeline.Prelude.{
  ℕ, zero, suc, ◌+◌, ◌<◌, ◌≡◌, ◌≢◌, refl, sym, ap₂, ◌||◌, ◌∙◌, Bool, true, false, not, Bool-cases,
  inl, inr, Option, none, some, List, [], ◌∷◌, ◌++◌, append-nil, append_assoc, get_or, set,
  get_or-set_ne, arith, if_cases,
}
use video_compute_pipeline.Prelude.Int.{ℤ, pos_part, eq_ℤ, eq_ℤ_iff, success}
use video_compute_pipeline.Memory.{Block, is_some}
use video_compute_pipeline.DetectionResult
use video_compute_pipeline.DetectionResult.{DetectionResult}
use video_compute_pipeline.Yolo.{Detection}
use video_compute_pipeline.FrameBatch.CudaFrame.{CudaNv12Frame}
use video_compute_pipeline.FrameBatch.{array, store}
use video_compute_pipeline.Runner.Hardware.{HwServices, release_frames, release_hw_frame_batch}
use video_compute_pipeline.Runner.Hardware.Output.{
  Batch, Context, stamped, frame_time, encode, output_slot, output_slots, frame_at, timing_at,
  result_at, with_slot,
}

-- What the file of detections has: a write that succeeds adds its detections, and nothing else does.
pub record IsLogged {T F R W : Type 0} (s : HwServices T F R W)
    (log : W → List (DetectionResult (Detection F R))) : Type 0 where
  pub written :
      (w : W) (r : DetectionResult (Detection F R))
      → (s.write_frame w r).1 ≡ success
      → log (s.write_frame w r).0 ≡ log w ++ (r ∷ [])
  pub drawn :
      (w : W) (f : CudaNv12Frame R) (r : DetectionResult (Detection F R)) (t : T)
      → log (s.draw_boxes w f r t).0 ≡ log w
  pub encoded : (w : W) (f : CudaNv12Frame R) (t : T) → log (s.write_cuda w f t).0 ≡ log w
  pub added : (w : W) (t : T) → log (s.add_frame_result w t).0 ≡ log w
  pub released : (w : W) (f : CudaNv12Frame R) → log (s.release_frame w f).0 ≡ log w

pub array-set_ne :
    {A : Type 0} (o : Option (Block A)) {i j : ℕ} (v d : A)
    → i ≢ j
    → get_or (array (store o (set (array o) i v))) j d ≡ get_or (array o) j d
array-set_ne none v d h = refl
array-set_ne (some b) v d h = get_or-set_ne b.contents v d h

module _ {T F R W : Type 0} (s : HwServices T F R W) where
  -- The detections of the frames of a batch as they are written, from `slot` on.
  pub results_from : ℕ → ℕ → Batch s → List (DetectionResult (Detection F R))
  results_from zero slot b = []
  results_from (suc n) slot b =
      stamped (frame_time s (frame_at s b slot) (timing_at s b slot)) (result_at s b slot)
      ∷ results_from n (slot + 1) b

  unfoldable pub results_of : Batch s → List (DetectionResult (Detection F R))
  unfolding results_from
  results_of b = results_from (pos_part b.valid_frames) 0 b

  -- A slot that is behind is not read again.
  results_from-with_slot :
      (n i j : ℕ) (b : Batch s) (t : T) (r : DetectionResult (Detection F R))
      → i < j
      → results_from n j (with_slot s b i t r) ≡ results_from n j b
  unfolding results_from
  results_from-with_slot zero i j b t r lt = refl
  results_from-with_slot (suc n) i j b t r lt = rw (
    array-set_ne b.timings t s.zero_timing apart,
    array-set_ne b.detections r DetectionResult.init apart,
    results_from-with_slot n i (j + 1) b t r (omega (arith, lt)),
  )
    where
      apart : i ≢ j
      apart e = absurd (omega (arith, e, lt))

  module _ (log : W → List (DetectionResult (Detection F R))) (l : IsLogged s log) where
    encode-log :
        (draw : Bool) (w : W) (f : CudaNv12Frame R) (r : DetectionResult (Detection F R)) (t : T)
        → log (encode s draw w f r t).0 ≡ log w
    unfolding encode
    encode-log draw w f r t =
        if_cases (λ (out : W × T × Bool). log out.0 ≡ log w) (not draw) (λ e. refl)
          λ e.
            if_cases (λ (out : W × T × Bool). log out.0 ≡ log w)
              (not (eq_ℤ (s.draw_boxes w f r t).2 success)) (λ g. l.drawn w f r t)
              (λ g. l.encoded (s.draw_boxes w f r t).0 f (s.draw_boxes w f r t).1 ∙ l.drawn w f r t)

    output_slot-log :
        (ctx : Context s) (f : CudaNv12Frame R) (t : T) (r : DetectionResult (Detection F R))
        → let out = output_slot s ctx f t r in
          out.3 ≡ true → log out.0 ≡ log ctx.world ++ (stamped (frame_time s f t) r ∷ [])
    unfolding output_slot
    output_slot-log ctx f t r =
        if_cases P (not (eq_ℤ (s.write_frame ctx.world r').1 success)) (λ e d. cc)
          λ e.
            if_cases P (not (encode s ctx.draw w1 f r' t).2) (λ g d. cc)
              λ g.
                if_cases P (not ctx.enable_benchmark) (λ k d. before e)
                  (λ k d. l.added w2 (s.summed w2 r' (encode s ctx.draw w1 f r' t).1) ∙ before e)
      where
        r' : DetectionResult (Detection F R)
        r' = stamped (frame_time s f t) r

        w1 : W
        w1 = (s.write_frame ctx.world r').0

        w2 : W
        w2 = (encode s ctx.draw w1 f r' t).0

        P : W × T × DetectionResult (Detection F R) × Bool → Type 0
        P out = out.3 ≡ true → log out.0 ≡ log ctx.world ++ (r' ∷ [])

        was_written : (z : ℤ) → not (eq_ℤ z success) ≡ false → z ≡ success
        was_written z e = ground (arith, e, eq_ℤ_iff z success)

        before :
            not (eq_ℤ (s.write_frame ctx.world r').1 success) ≡ false
            → log w2 ≡ log ctx.world ++ (r' ∷ [])
        before e =
            encode-log ctx.draw w1 f r' t
            ∙ l.written ctx.world r' (was_written (s.write_frame ctx.world r').1 e)

    -- What the loop over the frames keeps, and what it writes if it does not stop early.
    pub record Written (n slot : ℕ) (ctx : Context s) (b : Batch s)
        (out : Context s × Batch s × Bool) : Type 0 where
      pub next : out.0.next_frame_id ≡ ctx.next_frame_id
      pub free : out.0.free_batch_queue ≡ ctx.free_batch_queue
      pub valid : out.1.valid_frames ≡ b.valid_frames
      pub logged : out.2 ≡ true → log out.0.world ≡ log ctx.world ++ results_from n slot b

    module _ (n slot : ℕ) (ctx : Context s) (b : Batch s) where
      one : W × T × DetectionResult (Detection F R) × Bool
      one = output_slot s ctx (frame_at s b slot) (timing_at s b slot) (result_at s b slot)

      abbrev ctx_after : Context s
      ctx_after = record ctx { world = one.0 }

      abbrev batch_after : Batch s
      batch_after = with_slot s b slot one.1 one.2

      round-Written :
          Written n
            (slot + 1)
            ctx_after
            batch_after
            (output_slots s n (slot + 1) ctx_after batch_after)
          → Written (suc n) slot ctx b (output_slots s (suc n) slot ctx b)
      unfolding output_slots results_from one
      round-Written rest =
          if_cases (Written (suc n) slot ctx b) (not one.3)
            (λ e. record { next = refl; free = refl; valid = refl; logged = λ d. cc })
            (λ e. record {
              next = rest.next;
              free = rest.free;
              valid = rest.valid;
              logged = λ d.
                  rest.logged d
                  ∙ ap₂ (λ x y. x ++ y) (output_slot-log ctx _ _ _ (done one.3 e))
                      (results_from-with_slot n slot (slot + 1) b one.1 one.2 (omega arith))
                  ∙ append_assoc (log ctx.world) _ _;
            })
        where
          done : (x : Bool) → not x ≡ false → x ≡ true
          done x e = ground (arith, e)

    pub output_slots-Written :
        (n slot : ℕ) (ctx : Context s) (b : Batch s)
        → Written n slot ctx b (output_slots s n slot ctx b)
    unfolding output_slots results_from one
    output_slots-Written zero slot ctx b = record {
      next = refl;
      free = refl;
      valid = refl;
      logged = λ e. sym (append-nil (log ctx.world));
    }
    output_slots-Written (suc n) slot ctx b =
        round-Written n slot ctx b
          (output_slots-Written n (slot + 1) (ctx_after n slot ctx b) (batch_after n slot ctx b))

    release_frames-log :
        (w : W) (fs : List (CudaNv12Frame R)) → log (release_frames s w fs).0 ≡ log w
    unfolding release_frames
    release_frames-log w [] = refl
    release_frames-log w (f ∷ fs) = elim (Bool-cases (is_some f.av_frame)) [
      | inl e ↦ rw e (release_frames-log (s.release_frame w f).0 fs ∙ l.released w f)
      | inr e ↦ rw e (release_frames-log w fs)
    ]

    pub release_hw_frame_batch-log :
        (w : W) (b : Batch s) → log (release_hw_frame_batch s w b).0 ≡ log w
    unfolding release_hw_frame_batch
    release_hw_frame_batch-log w b =
        if_cases (λ (out : W × Batch s). log out.0 ≡ log w)
          (not b.use_cuda_frames || not (is_some b.cuda_frames)) (λ e. refl)
          (λ e. release_frames-log w (array b.cuda_frames))
