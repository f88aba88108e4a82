-- ===== src/Runner/Packet.antt =====
-- pipeline/pipeline_runner.c: `PipelinePacket`, a frame with its timing.
-- The queues only move a `FrameTiming`, so its type is a parameter, with its value of all zeros.
use video_compute_pipeline.Prelude.{false, not, ◌≡◌, if◌then◌else◌}
use video_compute_pipeline.Prelude.Int.{ℤ, eq_ℤ, success, failure}
use video_compute_pipeline.Memory.{Heap}
use video_compute_pipeline.Frame
use video_compute_pipeline.Frame.{Frame}
use video_compute_pipeline.Frame.Valid.{IsFilled}

pub record PipelinePacket (T : Type 0) : Type 0 where
  pub frame : Frame
  pub timing : T

module _ {T : Type 0} (zero_timing : T) where
  -- packet_init.
  abbrev pub init : PipelinePacket T
  init = record { frame = Frame.init; timing = zero_timing }

  -- packet_free.
  abbrev pub free : Heap → PipelinePacket T → Heap × PipelinePacket T
  free h p = let (h', f) = Frame.free h p.frame in (h', record { frame = f; timing = zero_timing })

  unfoldable pub move :
      Heap → PipelinePacket T → PipelinePacket T → Heap × PipelinePacket T × PipelinePacket T × ℤ
  move h dst src =
      let (h', emptied) = free h dst in
      let (h'', to, from, result) = Frame.move false h' emptied.frame src.frame in
      if not (eq_ℤ result success)
      then (
        h'',
        record { frame = to; timing = src.timing },
        record { frame = from; timing = src.timing },
        failure,
      )
      else (
        h'',
        record { frame = to; timing = src.timing },
        record { frame = from; timing = zero_timing },
        success,
      )

  -- `packet_move` of a filled packet hands it over whole and leaves the empty packet behind.
  pub move_lem :
      (h : Heap) (dst src : PipelinePacket T)
      → IsFilled src.frame
      → move h dst src ≡ ((free h dst).0, src, init, success)
  unfolding move
  move_lem h dst src v = rw (Frame.Transfer.move_lem (free h dst).0 Frame.init src.frame v)
