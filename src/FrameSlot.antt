-- ===== src/FrameSlot.antt =====
-- pipeline/frame_slot.h and pipeline/frame_slot.c: a frame with the marks of its pool.
-- An `int` that the source uses as a truth value is a Bool.
use video_compute_pipeline.Prelude.{Bool, true, false, not, if◌then◌else◌}
use video_compute_pipeline.Prelude.Int.{ℤ, eq_ℤ, success, failure}
use video_compute_pipeline.Memory.{Heap}
use video_compute_pipeline.Frame
use video_compute_pipeline.Frame.{Frame}

pub record FrameSlot : Type 0 where
  pub frame : Frame
  pub occupied : Bool
  pub processing : Bool

-- frame_slot_init.
abbrev pub init : FrameSlot
init = record { frame = Frame.init; occupied = false; processing = false }

-- frame_slot_free.
abbrev pub free : Heap → FrameSlot → Heap × FrameSlot
free h s =
    let (h', f) = Frame.free h s.frame in
    (h', record { frame = f; occupied = false; processing = false })

unfoldable pub put : Heap → FrameSlot → Frame → Heap × FrameSlot × Frame × ℤ
put h s frame =
    if s.occupied
    then (h, s, frame, failure)
    else let (h', dst, src, result) = Frame.move false h s.frame frame in
      if not (eq_ℤ result success)
      then (h', record s { frame = dst }, src, failure)
      else (h', record s { frame = dst; occupied = true; processing = false }, src, success)

unfoldable pub take : Heap → FrameSlot → Frame → Heap × FrameSlot × Frame × ℤ
take h s out =
    if not s.occupied
    then (h, s, out, failure)
    else let (h', dst, src, result) = Frame.move false h out s.frame in
      if not (eq_ℤ result success)
      then (h', record s { frame = src }, dst, failure)
      else (h', record s { frame = src; occupied = false; processing = false }, dst, success)
