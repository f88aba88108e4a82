-- ===== src/DetectionResult.antt =====
-- include/inference/detection_result.h and inference/detection_result.c: the detections of a frame.
-- The type of a detection is a parameter, with its value of all zeros.
pub mod Grow
pub mod Tests
use video_compute_pipeline.Prelude.{
  ℕ, ◌+◌, Bool, not, ◌||◌, Option, none, some, List, [], ◌∷◌, set, replicate, leb, ◌==◌,
  if◌then◌else◌,
}
use video_compute_pipeline.Prelude.Int.{ℤ, success, failure}
use video_compute_pipeline.Memory.{Heap, Block, calloc, free as free_block, is_some, add_size}

-- The array `items` has `capacity` elements.
pub record DetectionResult (D : Type 0) : Type 0 where
  pub items : Option (Block D)
  pub count : ℕ
  pub capacity : ℕ

module _ {D : Type 0} where
  -- detection_result_init.
  abbrev pub init : DetectionResult D
  init = record { items = none; count = 0; capacity = 0 }

  -- detection_result_free.
  abbrev pub free : Heap → DetectionResult D → Heap × DetectionResult D
  free h r = (free_block h r.items, init)

  -- detection_result_clear.
  abbrev pub clear : DetectionResult D → DetectionResult D
  clear r = record r { count = 0 }

  abbrev store : Option (Block D) → ℕ → D → Option (Block D)
  store none i d = none
  store (some b) i d = some (record b { contents = set b.contents i d })

  unfoldable pub add : DetectionResult D → D → DetectionResult D × ℤ
  add r d =
      if not (is_some r.items) || leb r.capacity r.count
      then (r, failure)
      else (record r { items = store r.items r.count d; count = add_size r.count 1 }, success)

  -- `detection_result_alloc` once the array is there or not.
  unfoldable pub with_items :
      Heap → DetectionResult D → ℕ → Option (Block D) → Heap × DetectionResult D × ℤ
  with_items h r capacity none = (h, r, failure)
  with_items h r capacity (some b) =
      ((free h r).0, record { items = some b; count = 0; capacity = capacity }, success)

  unfoldable pub alloc : D → Heap → DetectionResult D → ℕ → Heap × DetectionResult D × ℤ
  unfolding with_items calloc
  alloc zero_detection h r capacity =
      if capacity == 0
      then (h, r, failure)
      else let (h', b) = calloc h (replicate capacity zero_detection) in with_items h' r capacity b
