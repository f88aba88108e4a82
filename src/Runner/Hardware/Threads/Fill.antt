-- ===== src/Runner/Hardware/Threads/Fill.antt =====
-- pipeline/pipeline_runner.c: what the decoder does with a free batch.
use video_compute_pipeline.Prelude.{ℕ, ◌+◌, ◌<◌, ◌≤◌, ◌≡◌, Bool, true, [], ◌∷◌}
use video_compute_pipeline.Prelude.Int.{ℤ, pos, pos_part, is_pos}
use video_compute_pipeline.Runner.Hardware.{HwServices}
use video_compute_pipeline.Runner.Hardware.Output.{Batch, Context, timing_at}
use video_compute_pipeline.Runner.Hardware.Chain.{Chain}
use video_compute_pipeline.Runner.Hardware.Threads.{DecoderPlace, with_frames, without_frames, over}

module _ {T F R W : Type 0} (s : HwServices T F R W)
    (indexed : (i : ℤ) (t : T) → s.frame_index (s.with_index i t) ≡ i) where
  -- What the decoder does with a free batch when `k` is the number of the next frame, by where it goes.
  pub data Decoded (ctx : Context s) (k : ℕ) : Context s × ℕ × DecoderPlace s → Type 0 where
    handed_over :
        {ctx' : Context s} {k' : ℕ} {b' : Batch s} {eof : Bool}
        → Chain s k (b' ∷ []) k'
        → k < k'
        → ((j : ℕ) → j < pos_part b'.valid_frames → s.frame_index (timing_at s b' j) ≡ pos (k + j))
        → (is_pos ctx.max_frames ≡ true
            → k ≤ pos_part ctx.max_frames
            → k' ≤ pos_part ctx.max_frames)
        → Decoded ctx k (ctx', k', with_frames b' eof)
    nothing_read : {ctx' : Context s} {b' : Batch s} → Decoded ctx k (ctx', k, without_frames b')
    gave_up : {ctx' : Context s} {k' : ℕ} → ctx'.failed ≡ true → Decoded ctx k (ctx', k', over)
