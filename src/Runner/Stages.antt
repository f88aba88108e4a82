-- ===== src/Runner/Stages.antt =====
-- pipeline/pipeline_runner.c: the decoder thread of the filter pipeline, and what it shares with the
-- processor threads.
-- Each thread is a state machine: a step is what the thread does from one wait in a queue or a pool to
-- the next, and a thread whose step replies that it waits stays where it is. The reader, the filters on
-- the GPU and the clock are parameters over a state `W` of their own. Frame numbers are natural
-- numbers: a video of 2 ^ 31 frames is not decoded.
pub mod Processor
pub mod Number
pub mod Passed
pub mod Tests
use video_compute_pipeline.Prelude.{
  ℕ, ◌+◌, ◌-◌, Bool, true, not, ◌&&◌, ◌||◌, leb, ◌==◌, if◌then◌else◌,
}
use video_compute_pipeline.Prelude.Int.{ℤ, pos, pos_part, is_pos, is_neg, eq_ℤ, success, failure}
use video_compute_pipeline.Memory.{Heap}
use video_compute_pipeline.Frame
use video_compute_pipeline.Frame.{Frame}
use video_compute_pipeline.FramePool
use video_compute_pipeline.FramePool.{FramePool, Reply, waits, returns}
use video_compute_pipeline.Config.Names.{
  FilterType, filter_grayscale, filter_blur_3x3, filter_blur_5x5, filter_blur_9x9,
  filter_blur_13x13,
}
use video_compute_pipeline.Filters.{
  GrayOps, cpu_grayscale, cpu_blur3x3, cpu_blur5x5, cpu_blur9x9, cpu_blur13x13,
}
use video_compute_pipeline.Runner.Packet
use video_compute_pipeline.Runner.Packet.{PipelinePacket}
use video_compute_pipeline.Runner.PacketQueue
use video_compute_pipeline.Runner.PacketQueue.{PacketQueue}

pub record StageServices (D T W : Type 0) : Type 0 where
  pub gray_ops : GrayOps D
  pub zero_timing : T
  -- video_reader_read_frame, and the timer's reading as `decode_ms`.
  pub read_frame : W → Frame → W × Frame × ℤ
  pub decoded : W → T → T
  -- The index of a frame in its timing.
  pub with_index : ℤ → T → T
  -- The filter on the GPU, which may give its input back to the pool when it has been uploaded.
  pub process_gpu :
      Heap → W → FilterType → Frame → Frame → FramePool → Heap × W × Frame × Frame × FramePool × ℤ
  -- The timer's reading as `process_ms`, on the GPU with the times of its transfers.
  pub processed : W → Bool → T → T

-- The fields of `PipelineContext` that the decoder and the processors use, and those of the
-- configuration that are read.
pub record StageContext (T W : Type 0) : Type 0 where
  pub world : W
  pub on_gpu : Bool
  pub filter : FilterType
  pub max_frames : ℤ
  pub raw_queue : PacketQueue T
  pub processed_queue : PacketQueue T
  pub raw_frame_pool : FramePool
  pub processed_frame_pool : FramePool
  pub active_processors : ℕ
  pub failed : Bool

module _ {T W : Type 0} where
  unfoldable pub pipeline_fail : StageContext T W → StageContext T W
  pipeline_fail ctx = record ctx {
    failed = true;
    raw_queue = PacketQueue.close ctx.raw_queue;
    processed_queue = PacketQueue.close ctx.processed_queue;
    raw_frame_pool = FramePool.close ctx.raw_frame_pool;
    processed_frame_pool = FramePool.close ctx.processed_frame_pool;
  }

  -- The last processor closes the queue of processed frames.
  unfoldable pub processor_finished : StageContext T W → StageContext T W
  processor_finished ctx = record ctx {
    active_processors = ctx.active_processors - 1;
    processed_queue =
        (if ctx.active_processors == 1
          then PacketQueue.close ctx.processed_queue
          else ctx.processed_queue);
  }

  abbrev pub release_raw : Heap → StageContext T W → Frame → Heap × StageContext T W × Frame
  release_raw h ctx f =
      let (h', pool, f', released) = FramePool.release h ctx.raw_frame_pool f in
      (h', record ctx { raw_frame_pool = pool }, f')

  -- A frame that is valid goes back to its pool.
  abbrev pub give_raw : Heap → StageContext T W → Frame → Heap × StageContext T W
  give_raw h ctx f =
      let (h', ctx', f') = release_raw h ctx f in if Frame.is_valid f then (h', ctx') else (h, ctx)

  abbrev pub give_processed : Heap → StageContext T W → Frame → Heap × StageContext T W
  give_processed h ctx f =
      let (h', pool, f', released) = FramePool.release h ctx.processed_frame_pool f in
      if Frame.is_valid f then (h', record ctx { processed_frame_pool = pool }) else (h, ctx)

-- Where the decoder is: before it asks for a frame, with a packet for the queue, or after its loop.
pub data DecoderStage (T : Type 0) : Type 0 where
  acquiring : DecoderStage T
  pushing : PipelinePacket T → DecoderStage T
  closing : DecoderStage T

module _ {D T W : Type 0} (s : StageServices D T W) where
  abbrev pub empty_packet : PipelinePacket T
  empty_packet = Packet.init s.zero_timing

  abbrev pub free_packet : Heap → PipelinePacket T → Heap
  free_packet h p = (Packet.free s.zero_timing h p).0

  abbrev pub packet_of : Frame → PipelinePacket T
  packet_of f = record empty_packet { frame = f }

  abbrev pub has_all_frames : StageContext T W → ℕ → Bool
  has_all_frames ctx frame_id = is_pos ctx.max_frames && leb (pos_part ctx.max_frames) frame_id

  -- The decoder has a frame `f` of the pool.
  unfoldable pub read_into :
      Heap → StageContext T W → ℕ → Frame → Heap × StageContext T W × ℕ × DecoderStage T
  read_into h ctx frame_id f =
      let (w, f', read) = s.read_frame ctx.world f in
      let ctx' = record ctx { world = w } in
      let timing = s.decoded w s.zero_timing in
      let (h1, ctx1, emptied) = release_raw h ctx' f' in
      let (h2, ctx2) = give_raw h ctx' f' in
      if eq_ℤ read (pos 0)
      then (h1, ctx1, frame_id, closing)
      else if is_neg read
      then (h2, pipeline_fail ctx2, frame_id, closing)
      else if ctx.failed
      then (h1, ctx1, frame_id, closing)
      else (
        h,
        ctx',
        frame_id + 1,
        pushing (record {
          frame = record f' { index = pos frame_id };
          timing = s.with_index (pos frame_id) timing;
        }),
      )

  abbrev pub decoder_acquired :
      Heap → StageContext T W → ℕ → Frame → Reply → Heap × StageContext T W × ℕ × DecoderStage T
  decoder_acquired h ctx frame_id f waits = (h, ctx, frame_id, acquiring)
  decoder_acquired h ctx frame_id f (returns r) =
      if eq_ℤ r (pos 0)
      then (free_packet h (packet_of f), ctx, frame_id, closing)
      else if is_neg r
      then (free_packet h (packet_of f), pipeline_fail ctx, frame_id, closing)
      else read_into h ctx frame_id f

  -- `packet` is the one that was pushed, and `left` what the push has left.
  abbrev pub decoder_queued :
      Heap
      → StageContext T W
      → ℕ
      → PipelinePacket T
      → PipelinePacket T
      → Reply
      → Heap × StageContext T W × ℕ × DecoderStage T
  decoder_queued h ctx frame_id packet left waits = (h, ctx, frame_id, pushing packet)
  decoder_queued h ctx frame_id packet left (returns r) =
      let (h', ctx') = give_raw h ctx left.frame in
      if eq_ℤ r (pos 0)
      then (h', ctx', frame_id, closing)
      else if is_neg r
      then (h', pipeline_fail ctx', frame_id, closing)
      else (free_packet h left, ctx, frame_id, acquiring)

  -- A step of `decoder_thread_main`. At the end the queue of raw frames is closed.
  unfoldable pub decoder_thread_main :
      Heap → StageContext T W → ℕ → DecoderStage T → Heap × StageContext T W × ℕ × DecoderStage T
  decoder_thread_main h ctx frame_id acquiring =
      let (h', pool, f, reply) = FramePool.acquire h ctx.raw_frame_pool Frame.init in
      if has_all_frames ctx frame_id
      then (free_packet h empty_packet, ctx, frame_id, closing)
      else decoder_acquired h' (record ctx { raw_frame_pool = pool }) frame_id f reply
  decoder_thread_main h ctx frame_id (pushing packet) =
      let (h', q, left, reply) = PacketQueue.push s.zero_timing h ctx.raw_queue packet in
      decoder_queued h' (record ctx { raw_queue = q }) frame_id packet left reply
  decoder_thread_main h ctx frame_id closing =
      (h, record ctx { raw_queue = PacketQueue.close ctx.raw_queue }, frame_id, closing)
