-- ===== src/FrameQueue/Refine.antt =====
-- A frame queue behaves as a bounded first-in first-out list of the frames that it holds.
use video_compute_pipeline.Prelude.{
  suc, ◌+◌, ◌-◌, ◌%◌, ◌≤◌, ◌<◌, ◌≡◌, ◌≢◌, refl, sym, ap, ◌∙◌, subst, List, [], ◌∷◌, ◌++◌, some,
  arith, All, All-append, get_or, set, ne→eq_false,
}
use video_compute_pipeline.Prelude.Int.{ℤ, success}
use video_compute_pipeline.Prelude.Window.{window}
use video_compute_pipeline.Prelude.Ring.{
  IsRing, push_window, push-IsRing, pop_window, pop-IsRing, tail_vacant, tail_in,
}
use video_compute_pipeline.Memory.{Heap, Block, add_size, size_max}
use video_compute_pipeline.Frame
use video_compute_pipeline.Frame.{Frame}
use video_compute_pipeline.Frame.Valid.{IsFilled}
use video_compute_pipeline.Frame.Transfer.{move_lem}
use video_compute_pipeline.FrameQueue.{FrameQueue, array, push, pop}

-- The frames in the queue, oldest first.
abbrev pub contents : FrameQueue → List Frame
contents q = window Frame.init (array q.items) q.capacity q.head q.count

pub record IsQueue (q : FrameQueue) : Type 0 where
  pub block : Block Frame
  pub stored : q.items ≡ some block
  pub ring : IsRing Frame.init block.contents q.capacity q.head q.tail q.count
  pub small : q.capacity ≤ size_max
  pub filled : All IsFilled (contents q)

module _ (h : Heap) (q : FrameQueue) (v : IsQueue q) where
  tail_below : q.tail < q.capacity
  tail_below = tail_in Frame.init v.block.contents q.capacity q.head q.tail q.count v.ring

  -- What `frame_queue_push` does to a queue that is not full.
  push_unfolds :
      (f : Frame)
      → IsFilled f
      → q.count ≢ q.capacity
      → push h q f ≡ (
        h,
        record q {
          items = some (record v.block { contents = set v.block.contents q.tail f });
          tail = (q.tail + 1) % q.capacity;
          count = suc q.count;
        },
        Frame.init,
        success,
      )
  unfolding push
  push_unfolds f u n = simp (
    ne→eq_false q.count q.capacity n,
    v.stored,
    move_lem h Frame.init f u,
    tail_vacant Frame.init v.block.contents q.capacity q.head q.tail q.count v.ring
        (omega (arith, n, v.ring.count_in)),
    no_wrap.0,
    no_wrap.1,
  )
    where
      no_wrap : (add_size q.tail 1 ≡ q.tail + 1) × (add_size q.count 1 ≡ suc q.count)
      no_wrap = omega (arith, tail_below, v.small, v.ring.count_in, n)

  -- What `frame_queue_pop` does to a queue that is not empty.
  pop_unfolds :
      (out : Frame)
      → IsFilled (get_or v.block.contents q.head Frame.init)
      → q.count ≢ 0
      → pop h q out ≡ (
        (Frame.free h out).0,
        record q {
          items = some (record v.block { contents = set v.block.contents q.head Frame.init });
          head = (q.head + 1) % q.capacity;
          count = q.count - 1;
        },
        get_or v.block.contents q.head Frame.init,
        success,
      )
  unfolding pop
  pop_unfolds out u n = simp (
    ne→eq_false q.count 0 n,
    v.stored,
    move_lem h out (get_or v.block.contents q.head Frame.init) u,
    no_wrap,
  )
    where
      no_wrap : add_size q.head 1 ≡ q.head + 1
      no_wrap = omega (arith, v.ring.head_in, v.small)

  contents_stored : contents q ≡ window Frame.init v.block.contents q.capacity q.head q.count
  contents_stored = rw v.stored

-- `frame_queue_push` on a queue that is not full.
pub record Pushed (h : Heap) (q : FrameQueue) (f : Frame) (r : Heap × FrameQueue × Frame × ℤ)
    : Type 0 where
  pub result : r.3 ≡ success
  pub heap : r.0 ≡ h
  pub frame : r.2 ≡ Frame.init
  pub queue : IsQueue r.1
  pub capacity : r.1.capacity ≡ q.capacity
  pub appended : contents r.1 ≡ contents q ++ (f ∷ [])

-- A push of a filled frame onto a queue that is not full appends the frame, leaves the empty frame
-- with the caller and touches no block.
pub push-Pushed :
    (h : Heap) (q : FrameQueue) (f : Frame)
    → IsQueue q
    → IsFilled f
    → q.count ≢ q.capacity
    → Pushed h q f (push h q f)
push-Pushed h q f v u n = rw (push_unfolds h q v f u n) (record {
  result = refl;
  heap = refl;
  frame = refl;
  queue = record {
    block = record v.block { contents = set v.block.contents q.tail f };
    stored = refl;
    ring = push-IsRing Frame.init _ q.capacity q.head q.tail q.count v.ring f below;
    small = v.small;
    filled =
        subst (All IsFilled) (sym appended)
          (All-append IsFilled (contents q) (f ∷ []) v.filled (u, tt));
  };
  capacity = refl;
  appended = appended;
})
  where
    below : q.count < q.capacity
    below = omega (arith, n, v.ring.count_in)

    appended :
        window Frame.init (set v.block.contents q.tail f) q.capacity q.head (suc q.count)
        ≡ contents q ++ (f ∷ [])
    appended =
        push_window Frame.init _ q.capacity q.head q.tail q.count v.ring f below
        ∙ ap (λ w. w ++ (f ∷ [])) (sym (contents_stored h q v))

-- `frame_queue_pop` on a queue that is not empty.
pub record Popped (h : Heap) (q : FrameQueue) (out : Frame) (r : Heap × FrameQueue × Frame × ℤ)
    : Type 0 where
  pub result : r.3 ≡ success
  pub heap : r.0 ≡ (Frame.free h out).0
  pub frame : IsFilled r.2
  pub queue : IsQueue r.1
  pub capacity : r.1.capacity ≡ q.capacity
  pub removed : contents q ≡ r.2 ∷ contents r.1

-- A pop from a queue that is not empty hands over its oldest frame, keeps the others in their order
-- and frees what the caller's frame held.
pub pop-Popped :
    (h : Heap) (q : FrameQueue) (out : Frame)
    → IsQueue q
    → q.count ≢ 0
    → Popped h q out (pop h q out)
pop-Popped h q out v n = rw (pop_unfolds h q v out held.0 n) (record {
  result = refl;
  heap = refl;
  frame = held.0;
  queue = record {
    block = record v.block { contents = set v.block.contents q.head Frame.init };
    stored = refl;
    ring = pop-IsRing Frame.init _ q.capacity q.head q.tail (q.count - 1) ring;
    small = v.small;
    filled = held.1;
  };
  capacity = refl;
  removed = removed;
})
  where
    ring : IsRing Frame.init v.block.contents q.capacity q.head q.tail (suc (q.count - 1))
    ring =
        subst (IsRing Frame.init v.block.contents q.capacity q.head q.tail) {x = q.count}
          {y = suc (q.count - 1)} (omega (arith, n)) v.ring

    removed :
        contents q
        ≡ get_or v.block.contents q.head Frame.init
          ∷ window Frame.init
              (set v.block.contents q.head Frame.init)
              q.capacity
              ((q.head + 1) % q.capacity)
              (q.count - 1)
    removed =
        contents_stored h q v
        ∙ ap (window Frame.init v.block.contents q.capacity q.head) {x = q.count}
            {y = suc (q.count - 1)} (omega (arith, n))
        ∙ pop_window Frame.init _ q.capacity q.head q.tail (q.count - 1) ring

    held : All IsFilled (
        get_or v.block.contents q.head Frame.init
        ∷ window Frame.init
            (set v.block.contents q.head Frame.init)
            q.capacity
            ((q.head + 1) % q.capacity)
            (q.count - 1))
    held = subst (All IsFilled) removed v.filled
