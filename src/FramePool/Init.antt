-- ===== src/FramePool/Init.antt =====
-- `frame_pool_init`: what it allocates is the pool's, or freed again if it fails.
use video_compute_pipeline.Prelude.{ℕ, ◌≡◌, Bool, List, [], ◌++◌, some, replicate, ◌⊎◌}
use video_compute_pipeline.Prelude.Int.{ℤ, success, failure}
use video_compute_pipeline.Prelude.Count.{SameItems}
use video_compute_pipeline.Memory.{Heap, Block}
use video_compute_pipeline.Frame
use video_compute_pipeline.Frame.{Frame, FrameFormat}
use video_compute_pipeline.FrameSlot
use video_compute_pipeline.FrameSlot.{FrameSlot}
use video_compute_pipeline.FramePool.Ledger.{pool_owned}
use video_compute_pipeline.FramePool.{FramePool, fill_slots, init}

-- A call that succeeds frees nothing, and one that fails leaves nothing with the pool.
abbrev KeepsAll : Heap → Heap × FramePool × ℤ → Type 0
KeepsAll h out =
    ((out.2 ≡ success) × (out.0.freed ≡ h.freed)) ⊎ ((out.2 ≡ failure) × (pool_owned out.1 ≡ []))

-- The pool owns what it had and what the call has allocated, less what it has freed.
abbrev NewBlocks : Heap → List ℕ → Heap × FramePool × ℤ → Type 0
NewBlocks h had out =
    SameItems (out.0.freed ++ pool_owned out.1 ++ h.granted) (h.freed ++ had ++ out.0.granted)

module _ (h : Heap) (p : FramePool) (capacity : ℕ) (w ht : ℤ) (fmt : FrameFormat) where
  module _ (n : ℕ) (address : ℕ) where
    abbrev blank : Block FrameSlot
    blank = record { address = address; contents = replicate n FrameSlot.init }

    abbrev filled : Heap × List FrameSlot × ℕ × Bool
    filled = fill_slots w ht fmt h blank.contents

    abbrev filled_pool : FramePool
    filled_pool = record p {
      slots = some (record blank { contents = filled.1 });
      capacity = capacity;
      available = filled.2;
    }

-- Every block that the call returned is freed or with the pool; a call that succeeds has freed none,
-- and the pool's blocks are those it allocated; a call that fails leaves none with the pool.
abbrev Settled : Heap → Heap × FramePool × ℤ → Type 0
Settled h out =
    SameItems (out.0.freed ++ pool_owned out.1 ++ h.granted) (h.freed ++ out.0.granted)
    × (((out.2 ≡ success)
          × (out.0.freed ≡ h.freed)
          × SameItems (pool_owned out.1 ++ h.granted) out.0.granted)
        ⊎ ((out.2 ≡ failure) × (pool_owned out.1 ≡ [])))
