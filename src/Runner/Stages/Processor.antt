-- ===== src/Runner/Stages/Processor.antt =====
-- pipeline/pipeline_runner.c: a processor thread of the filter pipeline.
use video_compute_pipeline.Prelude.{not, ◌||◌, if◌then◌else◌}
use video_compute_pipeline.Prelude.Int.{ℤ, pos, is_neg, eq_ℤ, success}
use video_compute_pipeline.Memory.{Heap}
use video_compute_pipeline.Frame
use video_compute_pipeline.Frame.{Frame}
use video_compute_pipeline.FramePool
use video_compute_pipeline.FramePool.{FramePool, Reply, waits, returns}
use video_compute_pipeline.Config.Names.{
  FilterType, filter_grayscale, filter_blur_3x3, filter_blur_5x5, filter_blur_9x9,
  filter_blur_13x13,
}
use video_compute_pipeline.Filters.{
  cpu_grayscale, cpu_blur3x3, cpu_blur5x5, cpu_blur9x9, cpu_blur13x13,
}
use video_compute_pipeline.Runner.Packet.{PipelinePacket}
use video_compute_pipeline.Runner.PacketQueue
use video_compute_pipeline.Runner.Stages.{
  StageServices, StageContext, pipeline_fail, processor_finished, release_raw, give_raw,
  give_processed, empty_packet, free_packet, packet_of,
}

-- Where a processor is: before it asks for a packet, with a packet that waits for an output, with the
-- two, after its loop, or at its end.
pub data ProcessorStage (T : Type 0) : Type 0 where
  popping : ProcessorStage T
  acquiring_output : PipelinePacket T → ProcessorStage T
  pushing_output : PipelinePacket T → PipelinePacket T → ProcessorStage T
  finishing : ProcessorStage T
  at_end : ProcessorStage T

module _ {D T W : Type 0} (s : StageServices D T W) where
  unfoldable pub process_cpu : Heap → FilterType → Frame → Frame → Heap × Frame × ℤ
  process_cpu h filter_grayscale input output = cpu_grayscale s.gray_ops h input output
  process_cpu h filter_blur_3x3 input output = cpu_blur3x3 h input output
  process_cpu h filter_blur_5x5 input output = cpu_blur5x5 h input output
  process_cpu h filter_blur_9x9 input output = cpu_blur9x9 h input output
  process_cpu h filter_blur_13x13 input output = cpu_blur13x13 h input output

  abbrev pub free_both : Heap → PipelinePacket T → PipelinePacket T → Heap
  free_both h input output = free_packet s (free_packet s h input) output

  -- Both frames go back to their pools.
  abbrev pub give_both : Heap → StageContext T W → Frame → Frame → Heap × StageContext T W
  give_both h ctx input output =
      let (h', ctx') = give_raw h ctx input in give_processed h' ctx' output

  abbrev pub processor_popped :
      Heap
      → StageContext T W
      → PipelinePacket T
      → Reply
      → Heap × StageContext T W × ProcessorStage T
  processor_popped h ctx input waits = (h, ctx, popping)
  processor_popped h ctx input (returns r) =
      let h' = free_both h input (empty_packet s) in
      if eq_ℤ r (pos 0)
      then (h', ctx, finishing)
      else if is_neg r || ctx.failed
      then (h', pipeline_fail ctx, finishing)
      else (h, ctx, acquiring_output input)

  -- The filter runs on the GPU, or on the CPU, which gives the input back at once.
  unfoldable pub run_filter :
      Heap → StageContext T W → Frame → Frame → Heap × StageContext T W × Frame × Frame × ℤ
  run_filter h ctx input output =
      let (h1, w, in1, out1, pool, r1) =
        s.process_gpu h ctx.world ctx.filter input output ctx.raw_frame_pool in
      let (h2, out2, r2) = process_cpu h ctx.filter input output in
      let (h3, ctx3, in3) = release_raw h2 ctx input in
      if ctx.on_gpu
      then (h1, record ctx { world = w; raw_frame_pool = pool }, in1, out1, r1)
      else (h3, ctx3, in3, out2, r2)

  -- The processor has a frame `f` for its output.
  unfoldable pub process_into :
      Heap
      → StageContext T W
      → PipelinePacket T
      → Frame
      → Heap × StageContext T W × ProcessorStage T
  process_into h ctx input f =
      let (h', ctx', left, made, result) = run_filter h ctx input.frame f in
      let (h'', ctx'') = give_both h' ctx' left made in
      let timing = s.processed ctx'.world ctx.on_gpu input.timing in
      if not (eq_ℤ result success) then (h'', pipeline_fail ctx'', finishing) else (
        h',
        ctx',
        pushing_output (record input { frame = left })
            (record {
              frame = record made { index = input.frame.index };
              timing = s.with_index input.frame.index timing;
            }),
      )

  abbrev pub processor_acquired :
      Heap
      → StageContext T W
      → PipelinePacket T
      → Frame
      → Reply
      → Heap × StageContext T W × ProcessorStage T
  processor_acquired h ctx input f waits = (h, ctx, acquiring_output input)
  processor_acquired h ctx input f (returns r) =
      let (h', ctx') = give_raw h ctx input.frame in
      if eq_ℤ r (pos 0)
      then (free_packet s h' (packet_of s f), ctx', finishing)
      else if is_neg r
      then (free_both h input (packet_of s f), pipeline_fail ctx, finishing)
      else process_into h ctx input f

  -- `left` is what the push has left of the output.
  abbrev pub processor_queued :
      Heap
      → StageContext T W
      → PipelinePacket T
      → PipelinePacket T
      → PipelinePacket T
      → Reply
      → Heap × StageContext T W × ProcessorStage T
  processor_queued h ctx input output left waits = (h, ctx, pushing_output input output)
  processor_queued h ctx input output left (returns r) =
      let (h', ctx') = give_both h ctx input.frame left.frame in
      if eq_ℤ r (pos 0)
      then (h', ctx', finishing)
      else if is_neg r
      then (h', pipeline_fail ctx', finishing)
      else (free_both h input left, ctx, popping)

  -- A step of `processor_thread_main`.
  unfoldable pub processor_thread_main :
      Heap → StageContext T W → ProcessorStage T → Heap × StageContext T W × ProcessorStage T
  processor_thread_main h ctx popping =
      let (h', q, input, reply) = PacketQueue.pop s.zero_timing h ctx.raw_queue (empty_packet s) in
      processor_popped h' (record ctx { raw_queue = q }) input reply
  processor_thread_main h ctx (acquiring_output input) =
      let (h', pool, f, reply) = FramePool.acquire h ctx.processed_frame_pool Frame.init in
      processor_acquired h' (record ctx { processed_frame_pool = pool }) input f reply
  processor_thread_main h ctx (pushing_output input output) =
      let (h', q, left, reply) = PacketQueue.push s.zero_timing h ctx.processed_queue output in
      processor_queued h' (record ctx { processed_queue = q }) input output left reply
  processor_thread_main h ctx finishing = (h, processor_finished ctx, at_end)
  processor_thread_main h ctx at_end = (h, ctx, at_end)
