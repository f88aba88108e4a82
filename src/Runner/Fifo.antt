-- ===== src/Runner/Fifo.antt =====
-- pipeline/pipeline_runner.c: a packet queue is a bounded first-in first-out list of the packets that
-- it holds.
use video_compute_pipeline.Prelude.{
  ◌≡◌, ◌≢◌, true, false, eq→eq_true, Bool-cases, ℕ_discrete, inl, inr,
}
use video_compute_pipeline.Prelude.Int.{pos}
use video_compute_pipeline.Memory.{Heap}
use video_compute_pipeline.FramePool.{Reply, waits, returns}
use video_compute_pipeline.Runner.Packet.{PipelinePacket}
use video_compute_pipeline.Runner.PacketQueue.{PacketQueue, push, pop}
use video_compute_pipeline.Runner.Stores.{Holds, IsQueue, Pushed, Popped, push_open, pop_some}

module _ {T : Type 0} (zero_timing : T) where
  -- What a push does, by the state of the queue.
  pub data PushReply (h : Heap) (q : PacketQueue T) (p : PipelinePacket T)
      (r : Heap × PacketQueue T × PipelinePacket T × Reply) : Type 0 where
    refused : q.closed ≡ true → r ≡ (h, q, p, returns (pos 0)) → PushReply h q p r
    push_blocked :
        q.closed ≡ false → q.count ≡ q.capacity → r ≡ (h, q, p, waits) → PushReply h q p r
    pushed :
        q.closed ≡ false → q.count ≢ q.capacity → Pushed zero_timing h q p r → PushReply h q p r

  -- What a pop does, by the state of the queue.
  pub data PopReply (h : Heap) (q : PacketQueue T) (out : PipelinePacket T)
      (r : Heap × PacketQueue T × PipelinePacket T × Reply) : Type 0 where
    ended : q.closed ≡ true → q.count ≡ 0 → r ≡ (h, q, out, returns (pos 0)) → PopReply h q out r
    pop_blocked : q.closed ≡ false → q.count ≡ 0 → r ≡ (h, q, out, waits) → PopReply h q out r
    popped : q.count ≢ 0 → Popped zero_timing h q out r → PopReply h q out r

  push_closed :
      (h : Heap) (q : PacketQueue T) (p : PipelinePacket T)
      → q.closed ≡ true
      → push zero_timing h q p ≡ (h, q, p, returns (pos 0))
  unfolding push
  push_closed h q p c = simp c

  push_full :
      (h : Heap) (q : PacketQueue T) (p : PipelinePacket T)
      → q.closed ≡ false
      → q.count ≡ q.capacity
      → push zero_timing h q p ≡ (h, q, p, waits)
  unfolding push
  push_full h q p c e = simp (c, eq→eq_true q.count q.capacity e)

  pop_closed :
      (h : Heap) (q : PacketQueue T) (out : PipelinePacket T)
      → q.closed ≡ true
      → q.count ≡ 0
      → pop zero_timing h q out ≡ (h, q, out, returns (pos 0))
  unfolding pop
  pop_closed h q out c e = simp (c, eq→eq_true q.count 0 e)

  pop_open :
      (h : Heap) (q : PacketQueue T) (out : PipelinePacket T)
      → q.closed ≡ false
      → q.count ≡ 0
      → pop zero_timing h q out ≡ (h, q, out, waits)
  unfolding pop
  pop_open h q out c e = simp (c, eq→eq_true q.count 0 e)

  -- A push of a filled packet onto a valid queue: a closed queue refuses it with 0 and a full open
  -- one makes the thread wait, both with nothing changed; else the packet is appended, the call
  -- returns 1 and leaves the empty packet with the caller.
  pub push_lem :
      (h : Heap) (q : PacketQueue T) (p : PipelinePacket T)
      → IsQueue zero_timing q
      → Holds zero_timing p
      → PushReply h q p (push zero_timing h q p)
  push_lem h q p v u = elim (Bool-cases q.closed) [
    | inl c ↦ refused c (push_closed h q p c)
    | inr o ↦ elim (ℕ_discrete q.count q.capacity) [
      | yes e ↦ push_blocked o e (push_full h q p o e)
      | no n ↦ pushed o n (push_open zero_timing h q p v u o n)
    ]
  ]

  -- A pop from a valid queue: an empty queue ends the consumer with 0 when it is closed and makes
  -- it wait when it is open, both with nothing changed; a queue that is not empty hands over its
  -- oldest packet, closed or not, and keeps the others in their order.
  pub pop_lem :
      (h : Heap) (q : PacketQueue T) (out : PipelinePacket T)
      → IsQueue zero_timing q
      → PopReply h q out (pop zero_timing h q out)
  pop_lem h q out v = elim (ℕ_discrete q.count 0) [
    | no n ↦ popped n (pop_some zero_timing h q out v n)
    | yes e ↦ elim (Bool-cases q.closed) [
      | inl c ↦ ended c e (pop_closed h q out c e)
      | inr o ↦ pop_blocked o e (pop_open h q out o e)
    ]
  ]
