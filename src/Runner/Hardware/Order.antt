-- ===== src/Runner/Hardware/Order.antt =====
-- pipeline/pipeline_runner.c: the loop of the main thread writes the detections in the order of the
-- video.
use mathlib.Core.List.{Permᴰ}
use mathlib.Core.List.Permᴰ
use video_compute_pipeline.Prelude.{◌≡◌, true, List, [], ◌∷◌, ◌++◌}
use video_compute_pipeline.Prelude.Int.{success, failure}
use video_compute_pipeline.FramePool.{waits, returns}
use video_compute_pipeline.DetectionResult.{DetectionResult}
use video_compute_pipeline.Yolo.{Detection}
use video_compute_pipeline.Runner.Hardware.{HwServices}
use video_compute_pipeline.Runner.Hardware.Output.{Batch, Context, Progress, Completed}
use video_compute_pipeline.Runner.Hardware.Log.{IsLogged}
use video_compute_pipeline.Runner.Hardware.Emit.{IsFull}
use video_compute_pipeline.Runner.Hardware.Chain.{Chain}
use video_compute_pipeline.Runner.Hardware.Reorder.{failed, results_of_all}

module _ {T F R W : Type 0} (s : HwServices T F R W)
    (log : W → List (DetectionResult (Detection F R))) (l : IsLogged s log) where
  abbrev pub batches_of : List (Completed s) → List (Batch s)
  batches_of [] = []
  batches_of (c ∷ cs) = c.batch ∷ batches_of cs

  -- How the loop of the main thread ends for the batches `bs` of a video, by its reply.
  pub data InOrder (ctx : Context s) (bs : List (Batch s)) (p : Progress s) : Type 0 where
    blocked : p.reply ≡ waits → IsFull p.ctx.free_batch_queue → InOrder ctx bs p
    stopped : p.reply ≡ returns failure → p.ctx.failed ≡ true → InOrder ctx bs p
    written :
        p.reply ≡ returns success
        → p.pending ≡ []
        → log p.ctx.world ≡ log ctx.world ++ results_of_all s log l bs
        → InOrder ctx bs p
