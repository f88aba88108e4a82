-- ===== src/FramePool/Invariant.antt =====
-- pipeline/frame_pool.c: the invariant of the pool and what `frame_pool_acquire` and
-- `frame_pool_release` do on every branch.
use video_compute_pipeline.Prelude.{
  suc, ◌≡◌, ◌<◌, refl, true, false, some, arith, length, All, pos→ne_zero, zero→eq_zero, ◌∙◌, sym,
}
use video_compute_pipeline.Prelude.Int.{ℤ, pos, success, yes_one, failure}
use video_compute_pipeline.Memory.{Heap, Block}
use video_compute_pipeline.Frame
use video_compute_pipeline.Frame.{Frame, FrameFormat}
use video_compute_pipeline.Frame.Valid.{is_valid-IsFilled}
use video_compute_pipeline.FrameSlot.{FrameSlot}
use video_compute_pipeline.FramePool.{
  FramePool, take_first, put_first, acquire, release, Reply, waits, returns,
}
use video_compute_pipeline.FramePool.Slots.{
  occupied_count, IsPooled, SlotOk, take_first-Took, put_first-PutIn, put_first_full,
}

-- The frames of a pool all have the dimensions and the format that it was made with.
module _ (w ht : ℤ) (fmt : FrameFormat) where
  -- The array is there, and the count of available frames is right.
  pub record IsPool (p : FramePool) : Type 0 where
    pub ready : p.lock_initialized ≡ true
    pub block : Block FrameSlot
    pub stored : p.slots ≡ some block
    pub room : length block.contents ≡ p.capacity
    pub counted : p.available ≡ occupied_count block.contents
    pub slots : All (SlotOk w ht fmt) block.contents

  -- A call of `frame_pool_acquire` that gets a frame.
  pub record Acquired (h : Heap) (p : FramePool) (out : Frame)
      (r : Heap × FramePool × Frame × Reply) : Type 0 where
    pub reply : r.3 ≡ returns yes_one
    pub frame : IsPooled w ht fmt r.2
    pub heap : r.0 ≡ (Frame.free h out).0
    pub pool : IsPool r.1
    pub available : suc r.1.available ≡ p.available
    pub capacity : r.1.capacity ≡ p.capacity
    pub closed : r.1.closed ≡ p.closed

  pub acquire-Acquired :
      (h : Heap) (p : FramePool) (out : Frame)
      → IsPool p
      → p.closed ≡ false
      → 0 < p.available
      → Acquired h p out (acquire h p out)
  unfolding acquire
  acquire-Acquired h p out v open_pool n =
      let t = take_first-Took w ht fmt h v.block.contents out v.slots (omega (arith, v.counted)) in
      simp (v.ready, open_pool, v.stored, t.result, pos→ne_zero p.available n)
        (record {
          reply = refl;
          frame = t.frame;
          heap = t.heap;
          pool = record {
            ready = refl;
            block = record v.block { contents = (take_first h v.block.contents out).1 };
            stored = refl;
            room = t.same_length ∙ v.room;
            counted = omega (arith, v.counted, t.fewer);
            slots = t.slots;
          };
          available = omega (arith, n);
          capacity = refl;
          closed = sym open_pool;
        })

  pub acquire_without :
      (h : Heap) (p : FramePool) (out : Frame)
      → IsPool p
      → (p.closed ≡ false → p.available ≡ 0 → acquire h p out ≡ (h, p, out, waits))
        × (p.closed ≡ true → acquire h p out ≡ (h, p, out, returns (pos 0)))
  unfolding acquire
  acquire_without h p out v =
      (λ o n. simp (v.ready, o, zero→eq_zero p.available n), λ c. simp (v.ready, c))

  -- A call of `frame_pool_release` for which a slot is free.
  pub record Released (h : Heap) (p : FramePool) (r : Heap × FramePool × Frame × ℤ) : Type 0 where
    pub result : r.3 ≡ success
    pub frame : r.2 ≡ Frame.init
    pub heap : r.0 ≡ h
    pub pool : IsPool r.1
    pub available : r.1.available ≡ suc p.available
    pub capacity : r.1.capacity ≡ p.capacity
    pub closed : r.1.closed ≡ p.closed

  pub release-Released :
      (h : Heap) (p : FramePool) (f : Frame)
      → IsPool p
      → IsPooled w ht fmt f
      → p.closed ≡ false
      → p.available < p.capacity
      → Released h p (release h p f)
  unfolding release
  release-Released h p f v u open_pool n =
      let t =
        put_first-PutIn w ht fmt h v.block.contents f v.slots u
          (omega (arith, v.counted, v.room)) in
      simp (is_valid-IsFilled f u.filled, v.ready, open_pool, v.stored, t.result)
        (record {
          result = refl;
          frame = t.frame;
          heap = t.heap;
          pool = record {
            ready = refl;
            block = record v.block { contents = (put_first h v.block.contents f).1 };
            stored = refl;
            room = t.same_length ∙ v.room;
            counted = omega (arith, v.counted, t.more);
            slots = t.slots;
          };
          available = omega arith;
          capacity = refl;
          closed = sym open_pool;
        })

  pub release_without :
      (h : Heap) (p : FramePool) (f : Frame)
      → IsPool p
      → IsPooled w ht fmt f
      → (p.closed ≡ false
          → p.available ≡ p.capacity
          → release h p f ≡ ((Frame.free h f).0, p, Frame.init, failure))
        × (p.closed ≡ true → release h p f ≡ ((Frame.free h f).0, p, Frame.init, success))
  unfolding release
  release_without h p f v u = (
    λ o n.
        simp
          (
            is_valid-IsFilled f u.filled,
            v.ready,
            o,
            v.stored,
            put_first_full w ht fmt h v.block.contents f (omega (arith, v.counted, v.room)),
          )
          (ground (arith, v.stored, v.ready)),
    λ c. simp (is_valid-IsFilled f u.filled, v.ready, c),
  )
