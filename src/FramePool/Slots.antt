-- ===== src/FramePool/Slots.antt =====
-- pipeline/frame_pool.c: the slots of a pool and what the loops of `frame_pool_acquire` and
-- `frame_pool_release` do to them: an occupied slot holds a filled frame of the dimensions of the
-- pool, any other the empty frame.
use video_compute_pipeline.Prelude.{
  ℕ, suc, ◌+◌, ◌≡◌, ◌<◌, ◌≤◌, refl, ap, true, false, List, [], ◌∷◌, ◌⊎◌, inl, inr, Option, none,
  some, arith, Bool-cases, length, All, if◌then◌else◌, ◌⊎◌,
}
use video_compute_pipeline.Prelude.Int.{ℤ, success}
use video_compute_pipeline.Memory.{Heap}
use video_compute_pipeline.Frame
use video_compute_pipeline.Frame.{Frame, FrameFormat}
use video_compute_pipeline.Frame.Valid.{IsFilled}
use video_compute_pipeline.Frame.Transfer.{move_lem}
use video_compute_pipeline.FrameSlot
use video_compute_pipeline.FrameSlot.{FrameSlot}
use video_compute_pipeline.FramePool.{take_first, put_first}

-- How many slots are occupied.
abbrev pub occupied_count : List FrameSlot → ℕ
occupied_count [] = 0
occupied_count (s ∷ ss) = (if s.occupied then 1 else 0) + occupied_count ss

take_occupied :
    (h : Heap) (s : FrameSlot) (out : Frame)
    → s.occupied ≡ true
    → IsFilled s.frame
    → FrameSlot.take h s out ≡ (
      (Frame.free h out).0,
      record { frame = Frame.init; occupied = false; processing = false },
      s.frame,
      success,
    )
unfolding FrameSlot.take
take_occupied h s out e v = rw (move_lem h out s.frame v) (simp e)

put_free :
    (h : Heap) (s : FrameSlot) (f : Frame)
    → s.occupied ≡ false
    → s.frame ≡ Frame.init
    → IsFilled f
    → FrameSlot.put h s f
      ≡ (h, record { frame = f; occupied = true; processing = false }, Frame.init, success)
unfolding FrameSlot.put
put_free h s f e blank v = rw (move_lem h s.frame f v) (simp (e, blank))

-- The frames of a pool all have the dimensions and the format that it was made with.
module _ (w ht : ℤ) (fmt : FrameFormat) where
  pub record IsPooled (f : Frame) : Type 0 where
    pub filled : IsFilled f
    pub width : f.width ≡ w
    pub height : f.height ≡ ht
    pub format : f.format ≡ fmt

  abbrev pub SlotOk : FrameSlot → Type 0
  SlotOk s =
      ((s.occupied ≡ true) × IsPooled s.frame) ⊎ ((s.occupied ≡ false) × (s.frame ≡ Frame.init))

  -- The loop of `frame_pool_acquire` has taken a frame.
  pub record Took (h : Heap) (ss : List FrameSlot) (out : Frame)
      (r : Heap × List FrameSlot × Frame × Option ℤ) : Type 0 where
    pub result : r.3 ≡ some success
    pub frame : IsPooled r.2
    pub heap : r.0 ≡ (Frame.free h out).0
    pub slots : All SlotOk r.1
    pub fewer : suc (occupied_count r.1) ≡ occupied_count ss
    pub same_length : length r.1 ≡ length ss

  pub take_first-Took :
      (h : Heap) (ss : List FrameSlot) (out : Frame)
      → All SlotOk ss
      → 0 < occupied_count ss
      → Took h ss out (take_first h ss out)
  unfolding take_first
  take_first-Took h [] out ok n = absurd (omega arith)
  take_first-Took h (s ∷ ss) out (inl (e, v), rest) n =
      simp (e, take_occupied h s out e v.filled)
        (record {
          result = refl;
          frame = v;
          heap = refl;
          slots = (inr (refl, refl), rest);
          fewer = simp e (omega arith);
          same_length = refl;
        })
  take_first-Took h (s ∷ ss) out (inr (e, b), rest) n =
      let t = take_first-Took h ss out rest (omega (arith, simp e at n)) in
      simp e (record {
        result = t.result;
        frame = t.frame;
        heap = t.heap;
        slots = (inr (e, b), t.slots);
        fewer = simp e (omega (arith, t.fewer));
        same_length = ap suc t.same_length;
      })

  -- The loop of `frame_pool_release` has put the frame into a slot.
  pub record PutIn (h : Heap) (ss : List FrameSlot) (r : Heap × List FrameSlot × Frame × Option ℤ)
      : Type 0 where
    pub result : r.3 ≡ some success
    pub frame : r.2 ≡ Frame.init
    pub heap : r.0 ≡ h
    pub slots : All SlotOk r.1
    pub more : occupied_count r.1 ≡ suc (occupied_count ss)
    pub same_length : length r.1 ≡ length ss

  pub occupied-le-length : (ss : List FrameSlot) → occupied_count ss ≤ length ss
  occupied-le-length [] = omega arith
  occupied-le-length (s ∷ ss) = ground (arith, occupied-le-length ss)

  pub put_first-PutIn :
      (h : Heap) (ss : List FrameSlot) (f : Frame)
      → All SlotOk ss
      → IsPooled f
      → occupied_count ss < length ss
      → PutIn h ss (put_first h ss f)
  unfolding put_first
  put_first-PutIn h [] f ok v n = absurd (omega arith)
  put_first-PutIn h (s ∷ ss) f (inr (e, b), rest) v n =
      simp (e, put_free h s f e b v.filled)
        (record {
          result = refl;
          frame = refl;
          heap = refl;
          slots = (inl (refl, v), rest);
          more = simp e (omega arith);
          same_length = refl;
        })
  put_first-PutIn h (s ∷ ss) f (inl (e, b), rest) v n =
      let t = put_first-PutIn h ss f rest v (omega (arith, simp e at n)) in
      simp e (record {
        result = t.result;
        frame = t.frame;
        heap = t.heap;
        slots = (inl (e, b), t.slots);
        more = simp e (omega (arith, t.more));
        same_length = ap suc t.same_length;
      })

  pub put_first_full :
      (h : Heap) (ss : List FrameSlot) (f : Frame)
      → occupied_count ss ≡ length ss
      → put_first h ss f ≡ (h, ss, f, none)
  unfolding put_first
  put_first_full h [] f n = refl
  put_first_full h (s ∷ ss) f n = elim (Bool-cases s.occupied) [
    | inl e ↦ simp e (rw (put_first_full h ss f (omega (arith, simp e at n))))
    | inr e ↦ absurd (omega (arith, occupied-le-length ss, simp e at n))
  ]
