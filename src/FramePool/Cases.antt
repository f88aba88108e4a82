-- ===== src/FramePool/Cases.antt =====
-- pipeline/frame_pool.c: every branch of frame_pool_acquire and frame_pool_release on a valid pool.
use video_compute_pipeline.Prelude.{
  ◌<◌, ◌≡◌, ◌≢◌, true, false, inl, inr, arith, Bool-cases, ℕ_discrete,
}
use video_compute_pipeline.Prelude.Int.{ℤ, pos, success, failure}
use video_compute_pipeline.Memory.{Heap}
use video_compute_pipeline.Frame
use video_compute_pipeline.Frame.{Frame, FrameFormat}
use video_compute_pipeline.FramePool.{FramePool, Reply, waits, returns, acquire, release}
use video_compute_pipeline.FramePool.Invariant.{
  IsPool, Acquired, Released, acquire-Acquired, acquire_without, release-Released, release_without,
}
use video_compute_pipeline.FramePool.Slots.{IsPooled, occupied-le-length}

module _ (w ht : ℤ) (fmt : FrameFormat) where
  -- What `frame_pool_acquire` does, by the state of the pool.
  pub data AcquireCase (h : Heap) (p : FramePool) (out : Frame)
      (r : Heap × FramePool × Frame × Reply) : Type 0 where
    pool_ended : p.closed ≡ true → r ≡ (h, p, out, returns (pos 0)) → AcquireCase h p out r
    blocked : p.closed ≡ false → p.available ≡ 0 → r ≡ (h, p, out, waits) → AcquireCase h p out r
    acquires :
        p.closed ≡ false → 0 < p.available → Acquired w ht fmt h p out r → AcquireCase h p out r

  -- What `frame_pool_release` does, by the state of the pool.
  pub data ReleaseCase (h : Heap) (p : FramePool) (f : Frame) (r : Heap × FramePool × Frame × ℤ)
      : Type 0 where
    shut : p.closed ≡ true → r ≡ ((Frame.free h f).0, p, Frame.init, success) → ReleaseCase h p f r
    surplus :
        p.closed ≡ false
        → p.available ≡ p.capacity
        → r ≡ ((Frame.free h f).0, p, Frame.init, failure)
        → ReleaseCase h p f r
    releases :
        p.closed ≡ false → p.available < p.capacity → Released w ht fmt h p r → ReleaseCase h p f r

  -- `frame_pool_acquire` on a valid pool: a closed pool returns 0 and one whose frames are all in use
  -- waits, both with nothing changed; else the call returns 1 and hands over a filled frame of the
  -- pool's dimensions, one frame less is available and the pool stays valid.
  pub acquire_lem :
      (h : Heap) (p : FramePool) (out : Frame)
      → IsPool w ht fmt p
      → AcquireCase h p out (acquire h p out)
  acquire_lem h p out v = elim (Bool-cases p.closed) [
    | inl c ↦ pool_ended c ((acquire_without w ht fmt h p out v).1 c)
    | inr o ↦ elim (ℕ_discrete p.available 0) [
      | yes e ↦ blocked o e ((acquire_without w ht fmt h p out v).0 o e)
      | no n ↦
          acquires o (omega (arith, n)) (acquire-Acquired w ht fmt h p out v o (omega (arith, n)))
    ]
  ]

  -- `frame_pool_release` of a filled frame of the dimensions of a valid pool: a closed pool frees the
  -- frame and reports success, a pool that lacks none frees it and fails, and both are as before; else
  -- the call returns 0 and takes the frame over, one frame more is available and the pool stays valid.
  pub release_lem :
      (h : Heap) (p : FramePool) (f : Frame)
      → IsPool w ht fmt p
      → IsPooled w ht fmt f
      → ReleaseCase h p f (release h p f)
  release_lem h p f v u = elim (Bool-cases p.closed) [
    | inl c ↦ shut c ((release_without w ht fmt h p f v u).1 c)
    | inr o ↦ elim (ℕ_discrete p.available p.capacity) [
      | yes e ↦ surplus o e ((release_without w ht fmt h p f v u).0 o e)
      | no n ↦ releases o (below n) (release-Released w ht fmt h p f v u o (below n))
    ]
  ]
    where
      below : p.available ≢ p.capacity → p.available < p.capacity
      below n = omega (arith, n, v.counted, v.room, occupied-le-length w ht fmt v.block.contents)
