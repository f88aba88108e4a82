-- ===== src/Runner/Stages/Number.antt =====
-- pipeline/pipeline_runner.c: the decoder of the filter pipeline numbers the frames that it hands over.
use video_compute_pipeline.Prelude.{ℕ, ◌+◌, ◌≡◌, List, [], ◌∷◌, ◌++◌}
use video_compute_pipeline.Prelude.Int.{pos}
use video_compute_pipeline.Memory.{Heap}
use video_compute_pipeline.Frame
use video_compute_pipeline.Frame.{Frame}
use video_compute_pipeline.FramePool
use video_compute_pipeline.Runner.Packet.{PipelinePacket}
use video_compute_pipeline.Runner.PacketQueue
use video_compute_pipeline.Runner.Stages.{
  StageServices, StageContext, DecoderStage, acquiring, pushing, closing, decoder_thread_main,
}

-- The packets have the numbers from `k` on, one after the other.
abbrev pub Consecutive : {T : Type 0} → ℕ → List (PipelinePacket T) → Type 0
Consecutive k [] = Unit
Consecutive k (p ∷ ps) = (p.frame.index ≡ pos k) × Consecutive (k + 1) ps

-- The packet that a step has handed over to the queue.
abbrev pub handed_over : {T : Type 0} → DecoderStage T → DecoderStage T → List (PipelinePacket T)
handed_over acquiring next = []
handed_over (pushing p) acquiring = p ∷ []
handed_over (pushing p) (pushing q) = []
handed_over (pushing p) closing = []
handed_over closing next = []

-- `k` is the number of the next packet that will be handed over.
abbrev Next : {T : Type 0} → ℕ → ℕ → DecoderStage T → Type 0
Next k frame_id acquiring = frame_id ≡ k
Next k frame_id (pushing p) = (frame_id ≡ k + 1) × (p.frame.index ≡ pos k)
Next k frame_id closing = Unit

module _ {D T W : Type 0} (s : StageServices D T W) where
  abbrev Out : Type 0
  Out = Heap × StageContext T W × ℕ × DecoderStage T

  -- The packets that the decoder hands over in its steps. Each step finds the heap and the context as
  -- the other threads have left them.
  unfoldable pub decoder_run :
      ℕ → DecoderStage T → List (Heap × StageContext T W) → List (PipelinePacket T)
  decoder_run frame_id stage [] = []
  decoder_run frame_id stage (seen ∷ later) =
      let out = decoder_thread_main s seen.0 seen.1 frame_id stage in
      handed_over stage out.3 ++ decoder_run out.2 out.3 later

  abbrev IsNext : ℕ → Out → Type 0
  IsNext k out = Next k out.2 out.3

  -- A step with a packet in hand: it waits, the loop is over, or the packet has been handed over.
  data Pushed (k : ℕ) (p : PipelinePacket T) : Out → Type 0 where
    kept : {h : Heap} {ctx : StageContext T W} → Pushed k p (h, ctx, k, pushing p)
    left : {h : Heap} {ctx : StageContext T W} → Pushed k p (h, ctx, k, closing)
    gone : {h : Heap} {ctx : StageContext T W} → Pushed k p (h, ctx, k, acquiring)

  abbrev Run : List (Heap × StageContext T W) → Type 0
  Run later =
      (k frame_id : ℕ) (stage : DecoderStage T)
      → Next k frame_id stage
      → Consecutive k (decoder_run frame_id stage later)
