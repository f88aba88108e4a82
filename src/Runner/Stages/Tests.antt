-- ===== src/Runner/Stages/Tests.antt =====
-- A run of the decoder of pipeline/pipeline_runner.c on a pool that has one image left. The state of the reader is
-- the number of frames that it has read.
use video_compute_pipeline.Prelude.{ℕ, ◌+◌, ◌≡◌, refl, true, false, some, List, [], ◌∷◌, length}
use video_compute_pipeline.Prelude.Int.{pos, success}
use video_compute_pipeline.Memory.{Heap}
use video_compute_pipeline.Frame.{rgb24}
use video_compute_pipeline.Frame.Tests.{heap_without, image_in}
use video_compute_pipeline.Frame
use video_compute_pipeline.FrameSlot.{take}
use video_compute_pipeline.FramePool.{acquire}
use video_compute_pipeline.FramePool.Tests.{half}
use video_compute_pipeline.Config.Names.{filter_grayscale}
use video_compute_pipeline.Filters.Tests.{thousandths}
use video_compute_pipeline.Runner.Packet.{init, move}
use video_compute_pipeline.Runner.PacketQueue.{PacketQueue, zeroed, push, pop}
use video_compute_pipeline.Runner.Stages.Processor.{
  ProcessorStage, popping, processor_thread_main, process_into, run_filter,
}
use video_compute_pipeline.Runner.Stages.Passed.{all_passed_on}
use video_compute_pipeline.Runner.Stages.{
  StageServices, StageContext, DecoderStage, acquiring, decoder_thread_main, read_into,
}
use video_compute_pipeline.Runner.Stages.Number.{decoder_run}

abbrev services : StageServices ℕ ℕ ℕ
services = record {
  gray_ops = thousandths;
  zero_timing = 0;
  read_frame = λ w f. (w + 1, f, pos 1);
  decoded = λ w t. t;
  with_index = λ i t. t;
  process_gpu = λ h w filter input output pool. (h, w, input, output, pool, success);
  processed = λ w on_gpu t. t;
}

abbrev queue : PacketQueue ℕ
queue = record zeroed {
  items = some (record { address = 8; contents = init 0 ∷ init 0 ∷ [] });
  capacity = 2;
}

abbrev at_start : StageContext ℕ ℕ
at_start = record {
  world = 0;
  on_gpu = false;
  filter = filter_grayscale;
  max_frames = pos 0;
  raw_queue = queue;
  processed_queue = zeroed;
  raw_frame_pool = half;
  processed_frame_pool = half;
  active_processors = 1;
  failed = false;
}

abbrev first : Heap × StageContext ℕ ℕ × ℕ × DecoderStage ℕ
first = decoder_thread_main services (heap_without 99) at_start 0 acquiring

-- The decoder has taken a frame and read into it; then it hands the frame over.
abbrev seen : List (Heap × StageContext ℕ ℕ)
seen = (heap_without 99, at_start) ∷ (first.0, first.1) ∷ []

run : length (decoder_run services 0 acquiring seen) ≡ 1
unfolding decoder_thread_main decoder_run acquire take Frame.move read_into push move
run = refl

-- A queue with frame 4.
abbrev one_raw : PacketQueue ℕ
one_raw = record zeroed {
  items = some (record {
    address = 8;
    contents = record { frame = record (image_in 6) { index = pos 4 }; timing = 0 } ∷ init 0 ∷ [];
  });
  capacity = 2;
  tail = 1;
  count = 1;
}

abbrev with_raw : StageContext ℕ ℕ
with_raw = record at_start { on_gpu = true; raw_queue = one_raw; processed_queue = queue }

abbrev step :
    Heap × StageContext ℕ ℕ × ProcessorStage ℕ → Heap × StageContext ℕ ℕ × ProcessorStage ℕ
step (h, ctx, stage) = processor_thread_main services h ctx stage

abbrev begun : Heap × StageContext ℕ ℕ × ProcessorStage ℕ
begun = (heap_without 99, with_raw, popping)

abbrev seen_by_processor : List (Heap × StageContext ℕ ℕ)
seen_by_processor =
    (begun.0, begun.1)
    ∷ ((step begun).0, (step begun).1)
    ∷ ((step (step begun)).0, (step (step begun)).1)
    ∷ []

-- The frame is taken, filtered and handed over.
passed_4 : all_passed_on services popping seen_by_processor ≡ pos 4 ∷ []
unfolding processor_thread_main all_passed_on acquire take Frame.move push move pop process_into
    run_filter
passed_4 = refl
