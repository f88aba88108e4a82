-- ===== src/Runner/Tests.antt =====
-- Runs of the queue functions of pipeline/pipeline_runner.c on a queue of two places.
use video_compute_pipeline.Prelude.{
  ℕ, refl, true, some, [], ◌∷◌, arith, zero, suc, ◌<◌, ◌++◌, length, get_or, List, ◌≡◌, false,
}
use video_compute_pipeline.Frame.Tests.{heap_without, image_in, image_in-IsFilled}
use mathlib.Core.List.{Permᴰ}
use video_compute_pipeline.Memory.{Heap}
use video_compute_pipeline.Prelude.Int.{ℤ, pos, success}
use video_compute_pipeline.Frame.{set_planes, channels_for_format, calculate_stride, calculate_size}
use video_compute_pipeline.Frame.Valid.{IsFilled}
use video_compute_pipeline.FramePool.{zeroed}
use video_compute_pipeline.Runner.Encoder.{Services, PipelineContext, encoder_main}
use video_compute_pipeline.Runner.Drain.{IsReliable}
use video_compute_pipeline.Runner.Ordered.{Encoded, encoder_main_lem}
use video_compute_pipeline.Runner.Arrivals.{delivered}
use video_compute_pipeline.Runner.Packet
use video_compute_pipeline.Runner.Packet.{PipelinePacket}
use video_compute_pipeline.Runner.PacketQueue.{PacketQueue, push, pop}
use video_compute_pipeline.Runner.Stores.{IsQueue}
use video_compute_pipeline.Runner.Fifo.{PushReply, PopReply, push_lem, pop_lem}

-- A packet whose timing is a number.
abbrev packet_in : ℕ → PipelinePacket ℕ
packet_in n = record { frame = image_in n; timing = n }

-- The closed queue that still holds one packet.
abbrev last_one : PacketQueue ℕ
last_one = record {
  items = some (record { address = 3; contents = Packet.init 0 ∷ packet_in 1 ∷ [] });
  capacity = 2;
  head = 1;
  tail = 0;
  count = 1;
  closed = true;
}

last_one-IsQueue : IsQueue 0 last_one
last_one-IsQueue = record {
  block = record { address = 3; contents = Packet.init 0 ∷ packet_in 1 ∷ [] };
  stored = refl;
  ring = record {
    room = refl;
    head_in = omega arith;
    count_in = omega arith;
    tail_at = refl;
    vacant = (refl, tt);
  };
  small = omega arith;
  filled = (image_in-IsFilled 1, tt);
}

push_lem_example :
    PushReply 0
      (heap_without 5)
      last_one
      (packet_in 2)
      (push 0 (heap_without 5) last_one (packet_in 2))
push_lem_example =
    push_lem 0 (heap_without 5) last_one (packet_in 2) last_one-IsQueue (image_in-IsFilled 2)

pop_lem_example :
    PopReply 0
      (heap_without 5)
      last_one
      (Packet.init 0)
      (pop 0 (heap_without 5) last_one (Packet.init 0))
pop_lem_example = pop_lem 0 (heap_without 5) last_one (Packet.init 0) last_one-IsQueue

-- A writer that notes the index of each frame and, when it is flushed, a mark.
abbrev notes : Services ℕ (List ℤ)
notes = record {
  zero_timing = 0;
  write_frame = λ w f. (w ++ (f.index ∷ []), success);
  flush = λ w. (w ++ (pos 99 ∷ []), success);
  timed = λ w t. length w;
  add_frame_result = λ w t. (w, success);
}

notes-IsReliable : IsReliable notes
notes-IsReliable = record { writes = λ w f. refl; adds = λ w t. refl }

abbrev numbered_frame : ℕ → PipelinePacket ℕ
numbered_frame n = record { frame = record (image_in n) { index = pos n }; timing = 7 }

numbered_frame-IsFilled : (n : ℕ) → IsFilled (numbered_frame n).frame
unfolding calculate_stride calculate_size channels_for_format set_planes
numbered_frame-IsFilled n = record {
  wide = refl;
  high = refl;
  layout_channels = refl;
  layout_stride = refl;
  layout_size = refl;
  some_stride = omega arith;
  some_size = omega arith;
  block = record { address = n; contents = 1 ∷ 2 ∷ 3 ∷ 4 ∷ [] };
  owns = refl;
  room = refl;
  planes_set = refl;
}

abbrev two_frames : List (PipelinePacket ℕ)
two_frames = numbered_frame 0 ∷ numbered_frame 1 ∷ []

two_frames-numbered : (i : ℕ) → i < 2 → (get_or two_frames i (Packet.init 0)).frame.index ≡ pos i
unfolding set_planes
two_frames-numbered zero lt = refl
two_frames-numbered (suc zero) lt = refl
two_frames-numbered (suc (suc i)) lt = absurd (omega (arith, lt))

two_frames-IsFilled : (i : ℕ) → i < 2 → IsFilled (get_or two_frames i (Packet.init 0)).frame
two_frames-IsFilled zero lt = numbered_frame-IsFilled 0
two_frames-IsFilled (suc zero) lt = numbered_frame-IsFilled 1
two_frames-IsFilled (suc (suc i)) lt = absurd (omega (arith, lt))

abbrev all_granted : Heap
all_granted = record { calls = 0; granted = []; freed = []; grants = λ k. true }

abbrev encoder_context : PipelineContext (List ℤ)
encoder_context = record {
  world = [];
  processed_frame_pool = zeroed;
  enable_benchmark = true;
  failed = false;
}

-- The second frame comes first.
encoder_main_lem_example : Encoded notes true two_frames [] (
    encoder_main notes all_granted encoder_context
      (delivered (numbered_frame 1 ∷ numbered_frame 0 ∷ [])))
encoder_main_lem_example =
    encoder_main_lem notes true two_frames (numbered_frame 1 ∷ numbered_frame 0 ∷ []) all_granted
      encoder_context notes-IsReliable
      (record { numbered = two_frames-numbered; filled = two_frames-IsFilled })
      (Permᴰ.swap refl refl) (λ k. refl) refl refl
