-- ===== src/Frame/Balance.antt =====
-- `frame_alloc` against the ledger of the heap.
use video_compute_pipeline.Prelude.{ℕ, ◌+◌, ◌≡◌, inl, inr}
use video_compute_pipeline.Prelude.Int.{ℤ}
use video_compute_pipeline.Prelude.Count.{count, count-cons, items}
use video_compute_pipeline.Memory.{Heap}
use video_compute_pipeline.Frame.Ledger.{owned, count-retire}
use video_compute_pipeline.Frame.Valid.{alloc_lem, Allocated, Refused}
use video_compute_pipeline.Frame.{Frame, FrameFormat, alloc}

-- What calloc has returned is with the frame or freed, as it was before the call.
pub Balanced : ℕ → Heap → Frame → Heap × Frame × ℤ → Type 0
Balanced a h f out =
    count a out.0.freed + (count a (owned out.1) + count a h.granted)
    ≡ count a h.freed + (count a (owned f) + count a out.0.granted)

module _ (h : Heap) (f : Frame) (w ht : ℤ) (fmt : FrameFormat) (a : ℕ) where
  balance_if_not : (out : Heap × Frame × ℤ) → Refused h f w ht fmt out → Balanced a h f out
  unfolding Balanced
  balance_if_not out r = rw (r.freed, r.granted, r.frame)

  balance_if_new : (out : Heap × Frame × ℤ) → Allocated h f w ht fmt out → Balanced a h f out
  unfolding Balanced
  balance_if_new out r =
      rw (r.freed, r.granted, r.pixels)
        (omega (items, count-retire a f.pixels h.freed, count-cons a h.calls h.granted))

  pub alloc-Balanced :
      let (h', f', result) = alloc h f w ht fmt in
      count a h'.freed + (count a (owned f') + count a h.granted)
      ≡ count a h.freed + (count a (owned f) + count a h'.granted)
  unfolding Balanced
  alloc-Balanced = elim (alloc_lem h f w ht fmt) [
    | inl r ↦ balance_if_not _ r
    | inr r ↦ balance_if_new _ r
  ]
