-- ===== src/Runner/Stages/Passed.antt =====
-- pipeline/pipeline_runner.c: a processor hands over the frames that it takes.
use mathlib.Core.List.{Sublistᴰ}
use video_compute_pipeline.Prelude.{◌≡◌, List, [], ◌∷◌, ◌++◌}
use video_compute_pipeline.Prelude.Int.{ℤ}
use video_compute_pipeline.Memory.{Heap}
use video_compute_pipeline.Frame
use video_compute_pipeline.Frame.{Frame}
use video_compute_pipeline.FramePool
use video_compute_pipeline.Runner.Packet.{PipelinePacket}
use video_compute_pipeline.Runner.PacketQueue
use video_compute_pipeline.Runner.Stages.{StageServices, StageContext}
use video_compute_pipeline.Runner.Stages.Processor.{
  ProcessorStage, popping, acquiring_output, pushing_output, finishing, at_end,
  processor_thread_main,
}

-- The number of the frame that a processor has, as it stands in the packet for the output.
abbrev pub holding : {T : Type 0} → ProcessorStage T → List ℤ
holding popping = []
holding (acquiring_output input) = input.frame.index ∷ []
holding (pushing_output input output) = output.frame.index ∷ []
holding finishing = []
holding at_end = []

-- The number of the frame that a step takes from the queue of raw frames.
abbrev pub taken_by : {T : Type 0} → ProcessorStage T → ProcessorStage T → List ℤ
taken_by popping next = holding next
taken_by (acquiring_output input) next = []
taken_by (pushing_output input output) next = []
taken_by finishing next = []
taken_by at_end next = []

-- The number of the frame that a step hands over to the queue of processed frames.
abbrev pub passed_on : {T : Type 0} → ProcessorStage T → ProcessorStage T → List ℤ
passed_on (pushing_output input output) popping = output.frame.index ∷ []
passed_on stage next = []

module _ {D T W : Type 0} (s : StageServices D T W) where
  abbrev Out : Type 0
  Out = Heap × StageContext T W × ProcessorStage T

  -- What a processor takes and what it hands over in its steps. Each step finds the heap and the
  -- context as the other threads have left them.
  unfoldable pub all_taken : ProcessorStage T → List (Heap × StageContext T W) → List ℤ
  all_taken stage [] = []
  all_taken stage (seen ∷ later) =
      let out = processor_thread_main s seen.0 seen.1 stage in
      taken_by stage out.2 ++ all_taken out.2 later

  unfoldable pub all_passed_on : ProcessorStage T → List (Heap × StageContext T W) → List ℤ
  all_passed_on stage [] = []
  all_passed_on stage (seen ∷ later) =
      let out = processor_thread_main s seen.0 seen.1 stage in
      passed_on stage out.2 ++ all_passed_on out.2 later

  -- The numbers `i` of the packet stay, or the loop is over.
  data Keeps (ns : List ℤ) : Out → Type 0 where
    stays :
        {h : Heap} {ctx : StageContext T W} {next : ProcessorStage T}
        → holding next ≡ ns
        → Keeps ns (h, ctx, next)
    drops : {h : Heap} {ctx : StageContext T W} → Keeps ns (h, ctx, finishing)

  -- A step with two packets in hand: it waits, the loop is over, or the output has been handed over.
  data Handed (input output : PipelinePacket T) : Out → Type 0 where
    same :
        {h : Heap} {ctx : StageContext T W}
        → Handed input output (h, ctx, pushing_output input output)
    over : {h : Heap} {ctx : StageContext T W} → Handed input output (h, ctx, finishing)
    gone : {h : Heap} {ctx : StageContext T W} → Handed input output (h, ctx, popping)

  abbrev Run : List (Heap × StageContext T W) → Type 0
  Run later =
      (stage : ProcessorStage T)
      → Sublistᴰ (all_passed_on stage later) (holding stage ++ all_taken stage later)
