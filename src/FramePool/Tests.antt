-- ===== src/FramePool/Tests.antt =====
-- Runs of the functions of pipeline/frame_pool.c on a pool of two frames.
use video_compute_pipeline.Prelude.{ℕ, ◌≡◌, refl, true, false, inl, inr, some, [], ◌∷◌, ◌++◌}
use video_compute_pipeline.Prelude.Int.{pos, success}
use video_compute_pipeline.Prelude.Count.{SameItems}
use video_compute_pipeline.Frame
use video_compute_pipeline.Frame.{Frame, gray8, set_planes}
use video_compute_pipeline.Frame.Ledger.{owned}
use video_compute_pipeline.Frame.Tests.{heap_without, image_in, image_in-IsFilled}
use video_compute_pipeline.FrameSlot
use video_compute_pipeline.FrameSlot.{FrameSlot}
use video_compute_pipeline.Memory.{calloc}
use video_compute_pipeline.FramePool.{
  FramePool, zeroed, init, init_slots, fill_slots, acquire, release, free,
}
use video_compute_pipeline.FramePool.Ledger.{
  pool_owned, acquire-SameItems, release-SameItems, free-SameItems,
}
use video_compute_pipeline.FramePool.Fresh.{init-IsPool}
use video_compute_pipeline.FramePool.Invariant.{IsPool}
use video_compute_pipeline.FramePool.Slots.{IsPooled}
use video_compute_pipeline.FramePool.Cases.{AcquireCase, ReleaseCase, acquire_lem, release_lem}

abbrev slot_with : ℕ → FrameSlot
slot_with n = record { frame = image_in n; occupied = true; processing = false }

-- One frame is in use, the other in the second slot.
abbrev pub half : FramePool
half = record {
  slots = some (record { address = 3; contents = FrameSlot.init ∷ slot_with 1 ∷ [] });
  capacity = 2;
  available = 1;
  closed = false;
  lock_initialized = true;
}

image_in-IsPooled : (n : ℕ) → IsPooled (pos 2) (pos 2) gray8 (image_in n)
unfolding set_planes
image_in-IsPooled n = record {
  filled = image_in-IsFilled n;
  width = refl;
  height = refl;
  format = refl;
}

half-IsPool : IsPool (pos 2) (pos 2) gray8 half
half-IsPool = record {
  ready = refl;
  block = record { address = 3; contents = FrameSlot.init ∷ slot_with 1 ∷ [] };
  stored = refl;
  room = refl;
  counted = refl;
  slots = (inr (refl, refl), (inl (refl, image_in-IsPooled 1), tt));
}

acquire-SameItems_example :
    let (h', p', out', reply) = acquire (heap_without 5) half (image_in 4) in
    SameItems (h'.freed ++ owned out' ++ pool_owned p') (4 ∷ 3 ∷ 1 ∷ [])
unfolding set_planes
acquire-SameItems_example = acquire-SameItems (heap_without 5) half (image_in 4)

release-SameItems_example :
    let (h', p', f', result) = release (heap_without 5) half (image_in 4) in
    SameItems (h'.freed ++ owned f' ++ pool_owned p') (4 ∷ 3 ∷ 1 ∷ [])
unfolding set_planes
release-SameItems_example = release-SameItems (heap_without 5) half (image_in 4)

free-SameItems_example :
    let (h', p') = free (heap_without 5) half in
    (pool_owned p' ≡ []) × SameItems h'.freed (3 ∷ 1 ∷ [])
unfolding set_planes
free-SameItems_example = free-SameItems (heap_without 5) half

-- Three frames are granted.
three_frames : (init (heap_without 9) zeroed 3 (pos 2) (pos 2) gray8).2 ≡ success
unfolding init init_slots fill_slots calloc Frame.alloc Frame.fill_in Frame.channels_for_format
    Frame.calculate_stride Frame.calculate_size
three_frames = refl

init-IsPool_example :
    let (h', p', result) = init (heap_without 9) zeroed 3 (pos 2) (pos 2) gray8 in
    IsPool (pos 2) (pos 2) gray8 p' × (p'.capacity ≡ 3) × (p'.available ≡ 3) × (p'.closed ≡ false)
init-IsPool_example = init-IsPool (heap_without 9) zeroed 3 (pos 2) (pos 2) gray8 three_frames

acquire_lem_example :
    AcquireCase
      (pos 2)
      (pos 2)
      gray8
      (heap_without 5)
      half
      Frame.init
      (acquire (heap_without 5) half Frame.init)
acquire_lem_example = acquire_lem (pos 2) (pos 2) gray8 (heap_without 5) half Frame.init half-IsPool

release_lem_example :
    ReleaseCase
      (pos 2)
      (pos 2)
      gray8
      (heap_without 5)
      half
      (image_in 4)
      (release (heap_without 5) half (image_in 4))
release_lem_example =
    release_lem (pos 2) (pos 2) gray8 (heap_without 5) half (image_in 4) half-IsPool
      (image_in-IsPooled 4)
