-- ===== src/FrameQueue.antt =====
-- pipeline/frame_queue.h and pipeline/frame_queue.c: a bounded circular queue of frames.
pub mod Refine
pub mod Run
pub mod Tests
use video_compute_pipeline.Prelude.{
  ℕ, ◌-◌, ◌%◌, Bool, false, not, Option, none, some, List, [], ◌∷◌, get_or, set, replicate, ◌==◌,
  if◌then◌else◌,
}
use video_compute_pipeline.Prelude.Int.{ℤ, eq_ℤ, success, failure}
use video_compute_pipeline.Memory.{Heap, Block, calloc, free as free_block, add_size}
use video_compute_pipeline.Frame
use video_compute_pipeline.Frame.{Frame}

-- The array `items` has `capacity` elements.
pub record FrameQueue : Type 0 where
  pub items : Option (Block Frame)
  pub capacity : ℕ
  pub head : ℕ
  pub tail : ℕ
  pub count : ℕ

abbrev pub array : Option (Block Frame) → List Frame
array none = []
array (some b) = b.contents

abbrev pub store : Option (Block Frame) → List Frame → Option (Block Frame)
store none fs = none
store (some b) fs = some (record b { contents = fs })

-- `frame_queue_init` once the array is there or not; every element has been through `frame_init`.
init_items : Heap → FrameQueue → ℕ → Option (Block Frame) → Heap × FrameQueue × ℤ
init_items h q capacity none = (h, record q { items = none }, failure)
init_items h q capacity (some b) =
    (h, record { items = some b; capacity = capacity; head = 0; tail = 0; count = 0 }, success)

unfoldable pub init : Heap → FrameQueue → ℕ → Heap × FrameQueue × ℤ
unfolding init_items calloc
init h q capacity =
    if capacity == 0
    then (h, q, failure)
    else let (h', b) = calloc h (replicate capacity Frame.init) in init_items h' q capacity b

-- `frame_free` of every element.
unfoldable pub free_frames : Heap → List Frame → Heap
free_frames h [] = h
free_frames h (f ∷ fs) = free_frames (Frame.free h f).0 fs

unfoldable pub free : Heap → FrameQueue → Heap × FrameQueue
unfolding free_frames
free h q = (
  free_block (free_frames h (array q.items)) q.items,
  record { items = none; capacity = 0; head = 0; tail = 0; count = 0 },
)

abbrev pub is_empty : FrameQueue → Bool
is_empty q = q.count == 0

abbrev pub is_full : FrameQueue → Bool
is_full q = q.count == q.capacity

abbrev pub size : FrameQueue → ℕ
size q = q.count

unfoldable pub push : Heap → FrameQueue → Frame → Heap × FrameQueue × Frame × ℤ
push h q frame =
    if is_full q
    then (h, q, frame, failure)
    else let items = array q.items in
      let (h', dst, src, result) = Frame.move false h (get_or items q.tail Frame.init) frame in
      let moved = store q.items (set items q.tail dst) in
      if not (eq_ℤ result success) then (h', record q { items = moved }, src, failure) else (
        h',
        record q {
          items = moved;
          tail = add_size q.tail 1 % q.capacity;
          count = add_size q.count 1;
        },
        src,
        success,
      )

unfoldable pub pop : Heap → FrameQueue → Frame → Heap × FrameQueue × Frame × ℤ
pop h q out =
    if is_empty q
    then (h, q, out, failure)
    else let items = array q.items in
      let (h', dst, src, result) = Frame.move false h out (get_or items q.head Frame.init) in
      let moved = store q.items (set items q.head src) in
      if not (eq_ℤ result success) then (h', record q { items = moved }, dst, failure) else (
        h',
        record q { items = moved; head = add_size q.head 1 % q.capacity; count = q.count - 1 },
        dst,
        success,
      )
