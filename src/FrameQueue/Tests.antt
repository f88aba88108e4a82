-- ===== src/FrameQueue/Tests.antt =====
-- Runs of the functions of pipeline/frame_queue.c on a queue of two places.
use video_compute_pipeline.Prelude.{◌≡◌, refl, some, List, [], ◌∷◌, arith}
use video_compute_pipeline.Prelude.Int.{success, failure}
use video_compute_pipeline.Frame
use video_compute_pipeline.Frame.{Frame, set_planes}
use video_compute_pipeline.Frame.Tests.{heap_without, image_in, image_in-IsFilled}
use video_compute_pipeline.Memory.{calloc}
use video_compute_pipeline.FrameQueue.{FrameQueue, init, init_items}
use video_compute_pipeline.FrameQueue.Refine.{contents, IsQueue}
use video_compute_pipeline.FrameQueue.Run.{Op, put, get, run, fifo_run, run_refines}

-- The queue that holds one image, in its second place.
abbrev one_image : FrameQueue
one_image = record {
  items = some (record { address = 3; contents = Frame.init ∷ image_in 1 ∷ [] });
  capacity = 2;
  head = 1;
  tail = 0;
  count = 1;
}

one_image-IsQueue : IsQueue one_image
one_image-IsQueue = record {
  block = record { address = 3; contents = Frame.init ∷ image_in 1 ∷ [] };
  stored = refl;
  ring = record {
    room = refl;
    head_in = omega arith;
    count_in = omega arith;
    tail_at = refl;
    vacant = (refl, tt);
  };
  small = omega arith;
  filled = (image_in-IsFilled 1, tt);
}

abbrev three_puts : List Op
three_puts = put (image_in 2) ∷ put (image_in 3) ∷ get ∷ get ∷ get ∷ []

-- The second push finds the queue full, the third pop finds it empty.
three_puts_results :
    (fifo_run 2 (image_in 1 ∷ []) three_puts).1
    ≡ (Frame.init, success)
      ∷ (image_in 3, failure)
      ∷ (image_in 1, success)
      ∷ (image_in 2, success)
      ∷ (Frame.init, failure)
      ∷ []
three_puts_results = refl

run_refines_example :
    let (h', q', replies) = run (heap_without 5) one_image three_puts in
    ((contents q', replies) ≡ fifo_run 2 (contents one_image) three_puts)
    × IsQueue q'
    × (h' ≡ heap_without 5)
run_refines_example =
    run_refines three_puts (heap_without 5) one_image one_image-IsQueue
      (image_in-IsFilled 2, (image_in-IsFilled 3, (tt, (tt, (tt, tt)))))

-- The fresh queue gets its array.
eight_places : (init (heap_without 5) one_image 8).2 ≡ success
unfolding init calloc init_items
eight_places = refl
