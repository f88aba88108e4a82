-- ===== src/Runner/Stores.antt =====
-- pipeline/pipeline_runner.c: the invariant of a packet queue, and what a push that has room and a pop
-- that finds a packet do to it.
use video_compute_pipeline.Prelude.{
  suc, ◌+◌, ◌-◌, ◌%◌, ◌≤◌, ◌<◌, ◌≡◌, ◌≢◌, refl, sym, ap, ◌∙◌, subst, false, List, [], ◌∷◌, ◌++◌,
  some, arith, All, All-append, get_or, set, ne→eq_false, Bool-cases, inl, inr,
}
use video_compute_pipeline.Prelude.Int.{yes_one}
use video_compute_pipeline.Prelude.Window.{window}
use video_compute_pipeline.Prelude.Ring.{
  IsRing, push_window, push-IsRing, pop_window, pop-IsRing, tail_vacant, tail_in,
}
use video_compute_pipeline.Memory.{Heap, Block, add_size, size_max}
use video_compute_pipeline.Frame.Valid.{IsFilled}
use video_compute_pipeline.FramePool.{Reply, returns}
use video_compute_pipeline.Runner.Packet
use video_compute_pipeline.Runner.Packet.{PipelinePacket, move_lem}
use video_compute_pipeline.Runner.PacketQueue.{PacketQueue, array, push, pop}

module _ {T : Type 0} (zero_timing : T) where
  abbrev vacant : PipelinePacket T
  vacant = Packet.init zero_timing

  abbrev pub Holds : PipelinePacket T → Type 0
  Holds p = IsFilled p.frame

  -- The packets in the queue, oldest first.
  abbrev pub contents : PacketQueue T → List (PipelinePacket T)
  contents q = window vacant (array q.items) q.capacity q.head q.count

  pub record IsQueue (q : PacketQueue T) : Type 0 where
    pub block : Block (PipelinePacket T)
    pub stored : q.items ≡ some block
    pub ring : IsRing vacant block.contents q.capacity q.head q.tail q.count
    pub small : q.capacity ≤ size_max
    pub filled : All Holds (contents q)

  module _ (h : Heap) (q : PacketQueue T) (v : IsQueue q) where
    tail_below : q.tail < q.capacity
    tail_below = tail_in vacant v.block.contents q.capacity q.head q.tail q.count v.ring

    contents_stored : contents q ≡ window vacant v.block.contents q.capacity q.head q.count
    contents_stored = rw v.stored

    -- What `packet_queue_push` does to an open queue that is not full.
    push_unfolds :
        (p : PipelinePacket T)
        → Holds p
        → q.closed ≡ false
        → q.count ≢ q.capacity
        → push zero_timing h q p ≡ (
          h,
          record q {
            items = some (record v.block { contents = set v.block.contents q.tail p });
            tail = (q.tail + 1) % q.capacity;
            count = suc q.count;
          },
          vacant,
          returns yes_one,
        )
    unfolding push
    push_unfolds p u running n = simp (
      running,
      ne→eq_false q.count q.capacity n,
      v.stored,
      move_lem zero_timing h vacant p u,
      tail_vacant vacant v.block.contents q.capacity q.head q.tail q.count v.ring
          (omega (arith, n, v.ring.count_in)),
      no_wrap.0,
      no_wrap.1,
    )
      where
        no_wrap : (add_size q.tail 1 ≡ q.tail + 1) × (add_size q.count 1 ≡ suc q.count)
        no_wrap = omega (arith, tail_below, v.small, v.ring.count_in, n)

    -- What `packet_queue_pop` does to a queue that is not empty, open or closed.
    pop_unfolds :
        (out : PipelinePacket T)
        → Holds (get_or v.block.contents q.head vacant)
        → q.count ≢ 0
        → pop zero_timing h q out ≡ (
          (Packet.free zero_timing h out).0,
          record q {
            items = some (record v.block { contents = set v.block.contents q.head vacant });
            head = (q.head + 1) % q.capacity;
            count = q.count - 1;
          },
          get_or v.block.contents q.head vacant,
          returns yes_one,
        )
    unfolding pop
    pop_unfolds out u n = elim (Bool-cases q.closed) [
      | inl closed ↦ simp (
        closed,
        ne→eq_false q.count 0 n,
        v.stored,
        move_lem zero_timing h out (get_or v.block.contents q.head vacant) u,
        no_wrap,
      )
      | inr running ↦ simp (
        running,
        ne→eq_false q.count 0 n,
        v.stored,
        move_lem zero_timing h out (get_or v.block.contents q.head vacant) u,
        no_wrap,
      )
    ]
      where
        no_wrap : add_size q.head 1 ≡ q.head + 1
        no_wrap = omega (arith, v.ring.head_in, v.small)

  -- `packet_queue_push` of an open queue that is not full.
  pub record Pushed (h : Heap) (q : PacketQueue T) (p : PipelinePacket T)
      (r : Heap × PacketQueue T × PipelinePacket T × Reply) : Type 0 where
    pub reply : r.3 ≡ returns yes_one
    pub heap : r.0 ≡ h
    pub packet : r.2 ≡ vacant
    pub queue : IsQueue r.1
    pub capacity : r.1.capacity ≡ q.capacity
    pub appended : contents r.1 ≡ contents q ++ (p ∷ [])

  -- `packet_queue_pop` of a queue that is not empty.
  pub record Popped (h : Heap) (q : PacketQueue T) (out : PipelinePacket T)
      (r : Heap × PacketQueue T × PipelinePacket T × Reply) : Type 0 where
    pub reply : r.3 ≡ returns yes_one
    pub heap : r.0 ≡ (Packet.free zero_timing h out).0
    pub packet : Holds r.2
    pub queue : IsQueue r.1
    pub capacity : r.1.capacity ≡ q.capacity
    pub running : r.1.closed ≡ q.closed
    pub removed : contents q ≡ r.2 ∷ contents r.1

  pub push_open :
      (h : Heap) (q : PacketQueue T) (p : PipelinePacket T)
      → IsQueue q
      → Holds p
      → q.closed ≡ false
      → q.count ≢ q.capacity
      → Pushed h q p (push zero_timing h q p)
  push_open h q p v u running n = rw (push_unfolds h q v p u running n) (record {
    reply = refl;
    heap = refl;
    packet = refl;
    queue = record {
      block = record v.block { contents = set v.block.contents q.tail p };
      stored = refl;
      ring = push-IsRing vacant _ q.capacity q.head q.tail q.count v.ring p below;
      small = v.small;
      filled =
          subst (All Holds) (sym appended)
            (All-append Holds (contents q) (p ∷ []) v.filled (u, tt));
    };
    capacity = refl;
    appended = appended;
  })
    where
      below : q.count < q.capacity
      below = omega (arith, n, v.ring.count_in)

      appended :
          window vacant (set v.block.contents q.tail p) q.capacity q.head (suc q.count)
          ≡ contents q ++ (p ∷ [])
      appended =
          push_window vacant _ q.capacity q.head q.tail q.count v.ring p below
          ∙ ap (λ w. w ++ (p ∷ [])) (sym (contents_stored h q v))

  pub pop_some :
      (h : Heap) (q : PacketQueue T) (out : PipelinePacket T)
      → IsQueue q
      → q.count ≢ 0
      → Popped h q out (pop zero_timing h q out)
  pop_some h q out v n = rw (pop_unfolds h q v out held.0 n) (record {
    reply = refl;
    heap = refl;
    packet = held.0;
    queue = record {
      block = record v.block { contents = set v.block.contents q.head vacant };
      stored = refl;
      ring = pop-IsRing vacant _ q.capacity q.head q.tail (q.count - 1) ring;
      small = v.small;
      filled = held.1;
    };
    capacity = refl;
    running = refl;
    removed = removed;
  })
    where
      ring : IsRing vacant v.block.contents q.capacity q.head q.tail (suc (q.count - 1))
      ring =
          subst (IsRing vacant v.block.contents q.capacity q.head q.tail) {x = q.count}
            {y = suc (q.count - 1)} (omega (arith, n)) v.ring

      removed :
          contents q
          ≡ get_or v.block.contents q.head vacant
            ∷ window vacant
                (set v.block.contents q.head vacant)
                q.capacity
                ((q.head + 1) % q.capacity)
                (q.count - 1)
      removed =
          contents_stored h q v
          ∙ ap (window vacant v.block.contents q.capacity q.head) {x = q.count}
              {y = suc (q.count - 1)} (omega (arith, n))
          ∙ pop_window vacant _ q.capacity q.head q.tail (q.count - 1) ring

      held : All Holds (
          get_or v.block.contents q.head vacant
          ∷ window vacant
              (set v.block.contents q.head vacant)
              q.capacity
              ((q.head + 1) % q.capacity)
              (q.count - 1))
      held = subst (All Holds) removed v.filled
