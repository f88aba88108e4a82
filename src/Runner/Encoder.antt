-- ===== src/Runner/Encoder.antt =====
-- pipeline/pipeline_runner.c: the encoder thread of the filter pipeline.
-- The video writer, the timers and the benchmark, whose work is done by FFmpeg, the clock and on
-- floating-point numbers, are parameters over a state `W` of their own. Progress messages are left out.
use video_compute_pipeline.Prelude.{
  ℕ, zero, suc, ◌+◌, Bool, true, not, ◌||◌, List, [], ◌∷◌, length, if◌then◌else◌,
}
use video_compute_pipeline.Prelude.Int.{ℤ, pos, eq_ℤ, success, failure}
use video_compute_pipeline.Memory.{Heap}
use video_compute_pipeline.Frame.{Frame}
use video_compute_pipeline.FramePool
use video_compute_pipeline.FramePool.{FramePool}
use video_compute_pipeline.Runner.Packet
use video_compute_pipeline.Runner.Packet.{PipelinePacket}
use video_compute_pipeline.Runner.Pending
use video_compute_pipeline.Runner.Pending.{PendingNode}

pub record Services (T W : Type 0) : Type 0 where
  pub zero_timing : T
  -- video_writer_write_frame and video_writer_flush.
  pub write_frame : W → Frame → W × ℤ
  pub flush : W → W × ℤ
  -- The timer's reading, as `encode_ms` and in `total_ms`.
  pub timed : W → T → T
  -- benchmark_add_frame_result.
  pub add_frame_result : W → T → W × ℤ

-- The fields of `PipelineContext` that the encoder uses.
pub record PipelineContext (W : Type 0) : Type 0 where
  pub world : W
  pub processed_frame_pool : FramePool
  pub enable_benchmark : Bool
  pub failed : Bool

-- What the encoder's loop has in hand: the heap, the context, its list and its next index, and what
-- the call returned.
pub record Progress (T W : Type 0) : Type 0 where
  pub heap : Heap
  pub ctx : PipelineContext W
  pub pending : List (PendingNode T)
  pub next_frame_id : ℕ
  pub result : ℤ

-- A packet that `packet_queue_pop` hands to the encoder, and whether it then finds `failed` set by
-- another thread. After the last one the queue is closed and empty, and the call returns 0.
pub record Arrival (T : Type 0) : Type 0 where
  pub packet : PipelinePacket T
  pub failed : Bool

module _ {T W : Type 0} (s : Services T W) where
  abbrev empty_packet : PipelinePacket T
  empty_packet = Packet.init s.zero_timing

  abbrev free_packet : Heap → PipelinePacket T → Heap
  free_packet h p = (Packet.free s.zero_timing h p).0

  unfoldable pub write_packet :
      PipelineContext W → PipelinePacket T → PipelineContext W × PipelinePacket T × ℤ
  write_packet ctx packet =
      let (w, result) = s.write_frame ctx.world packet.frame in
      if not (eq_ℤ result success)
      then (record ctx { world = w }, packet, failure)
      else let p = record packet { timing = s.timed w packet.timing } in
        let (w', added) =
          if ctx.enable_benchmark then s.add_frame_result w p.timing else (w, success) in
        (record ctx { world = w' }, p, (if eq_ℤ added success then success else failure))

  -- `write_available_ordered`. Each round takes a node off the list, so a round more than the
  -- list's length is enough; `Runner.Ordered` shows it.
  unfoldable pub write_available :
      ℕ → Heap → PipelineContext W → List (PendingNode T) → ℕ → Progress T W
  unfolding write_packet
  write_available zero h ctx pending next_frame_id = record {
    heap = h;
    ctx = ctx;
    pending = pending;
    next_frame_id = next_frame_id;
    result = success;
  }
  write_available (suc fuel) h ctx pending next_frame_id =
      let (h1, pending', packet, found) =
        Pending.take s.zero_timing h pending (pos next_frame_id) empty_packet in
      let (ctx', p, result) = write_packet ctx packet in
      let (h2, pool, f, released) = FramePool.release h1 ctx'.processed_frame_pool p.frame in
      let rest =
        write_available fuel (free_packet h2 (record p { frame = f }))
          (record ctx' { processed_frame_pool = pool }) pending' (next_frame_id + 1) in
      if eq_ℤ found (pos 0)
      then record {
        heap = free_packet h1 packet;
        ctx = ctx;
        pending = pending';
        next_frame_id = next_frame_id;
        result = success;
      }
      else if not (eq_ℤ result success)
      then record {
        heap = free_packet h1 p;
        ctx = ctx';
        pending = pending';
        next_frame_id = next_frame_id;
        result = failure;
      }
      else rest

  abbrev pub write_ordered : Heap → PipelineContext W → List (PendingNode T) → ℕ → Progress T W
  write_ordered h ctx pending next_frame_id =
      write_available (suc (length pending)) h ctx pending next_frame_id

  -- pipeline_fail, for the encoder: the flag is set; the queues and pools it closes are not here.
  abbrev fail : PipelineContext W → PipelineContext W
  fail ctx = record ctx { failed = true }

  -- `pending_insert` and then `write_available_ordered`, unless the first has failed.
  unfoldable pub accept :
      Heap → PipelineContext W → List (PendingNode T) → ℕ → PipelinePacket T → Progress T W
  unfolding write_available
  accept h ctx pending next_frame_id packet =
      let (h', pending', left, inserted) = Pending.insert s.zero_timing h pending packet in
      let r = write_ordered h' ctx pending' next_frame_id in
      if not (eq_ℤ inserted success)
      then record {
        heap = free_packet h' left;
        ctx = ctx;
        pending = pending';
        next_frame_id = next_frame_id;
        result = failure;
      }
      else record r { heap = free_packet r.heap left }

  -- The loop of `encoder_thread_main`.
  unfoldable pub encode_loop :
      Heap → PipelineContext W → List (PendingNode T) → ℕ → List (Arrival T) → Progress T W
  unfolding accept
  encode_loop h ctx pending next_frame_id [] = record {
    heap = h;
    ctx = ctx;
    pending = pending;
    next_frame_id = next_frame_id;
    result = success;
  }
  encode_loop h ctx pending next_frame_id (a ∷ arrivals) =
      let r = accept h ctx pending next_frame_id a.packet in
      let rest = encode_loop r.heap r.ctx r.pending r.next_frame_id arrivals in
      if ctx.failed || a.failed
      then record {
        heap = free_packet h a.packet;
        ctx = fail ctx;
        pending = pending;
        next_frame_id = next_frame_id;
        result = failure;
      }
      else if not (eq_ℤ r.result success)
      then record r { ctx = fail r.ctx }
      else rest

  -- What follows the loop: the packets that are still pending are written or freed, and the writer
  -- is flushed unless the pipeline has failed. A flush that fails is only logged.
  unfoldable pub leave : Progress T W → Progress T W
  leave r = elim r.pending [
    | [] ↦
        (if r.ctx.failed
          then r
          else record r { ctx = record r.ctx { world = (s.flush r.ctx.world).0 } })
    | n ∷ rest ↦ record r {
      heap = Pending.free_all s.zero_timing r.heap (n ∷ rest);
      ctx = fail r.ctx;
      pending = [];
    }
  ]

  unfoldable pub write_rest : Progress T W → Progress T W
  unfolding write_available
  write_rest r =
      let last = write_ordered r.heap r.ctx r.pending r.next_frame_id in
      if r.ctx.failed
      then r
      else if not (eq_ℤ last.result success)
      then record last { ctx = fail last.ctx }
      else last

  -- encoder_thread_main.
  unfoldable pub encoder_main : Heap → PipelineContext W → List (Arrival T) → Progress T W
  unfolding encode_loop write_rest leave
  encoder_main h ctx arrivals = leave (write_rest (encode_loop h ctx [] 0 arrivals))
