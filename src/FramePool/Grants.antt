-- ===== src/FramePool/Grants.antt =====
-- pipeline/frame_pool.c: a release calls no calloc, so later calls are decided as before.
use video_compute_pipeline.Prelude.{◌≡◌, refl, not, List, [], ◌∷◌, Option, none, some, ◌∙◌, if_ind}
use video_compute_pipeline.Prelude.Int.{ℤ, eq_ℤ, success}
use video_compute_pipeline.Memory.{Heap}
use video_compute_pipeline.Frame
use video_compute_pipeline.Frame.{Frame}
use video_compute_pipeline.FrameSlot
use video_compute_pipeline.FrameSlot.{FrameSlot}
use video_compute_pipeline.FramePool.{FramePool, array, store, put_first, released, release}

put-grants : (h : Heap) (s : FrameSlot) (f : Frame) → (FrameSlot.put h s f).0.grants ≡ h.grants
unfolding FrameSlot.put Frame.move
put-grants h s f =
    if_ind (λ (r : Heap × FrameSlot × Frame × ℤ). r.0.grants ≡ h.grants) s.occupied refl refl

put_first-grants :
    (h : Heap) (ss : List FrameSlot) (f : Frame) → (put_first h ss f).0.grants ≡ h.grants
unfolding put_first
put_first-grants h [] f = refl
put_first-grants h (s ∷ ss) f =
    if_ind (λ (r : Heap × List FrameSlot × Frame × Option ℤ). r.0.grants ≡ h.grants)
      (not s.occupied) (put-grants h s f) (put_first-grants h ss f)

released-grants :
    (h : Heap) (p : FramePool) (f : Frame) (r : Option ℤ) → (released h p f r).0.grants ≡ h.grants
unfolding released
released-grants h p f none = refl
released-grants h p f (some r) =
    if_ind (λ (r : Heap × FramePool × Frame × ℤ). r.0.grants ≡ h.grants) (eq_ℤ r success) refl refl

pub release-grants : (h : Heap) (p : FramePool) (f : Frame) → (release h p f).0.grants ≡ h.grants
unfolding release
release-grants h p f = if_ind P (not (Frame.is_valid f)) refl (
    if_ind P (not p.lock_initialized) refl (
      if_ind P p.closed refl (
        released-grants h' (record p { slots = store p.slots (put_first h (array p.slots) f).1 })
          (put_first h (array p.slots) f).2 (put_first h (array p.slots) f).3
        ∙ put_first-grants h (array p.slots) f)))
  where
    P : Heap × FramePool × Frame × ℤ → Type 0
    P r = r.0.grants ≡ h.grants

    h' : Heap
    h' = (put_first h (array p.slots) f).0
