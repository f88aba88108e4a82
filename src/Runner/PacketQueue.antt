-- ===== src/Runner/PacketQueue.antt =====
-- pipeline/pipeline_runner.c: `PacketQueue`, the bounded queue between two pipeline stages.
-- Each function is one critical section. Where the source waits on a condition variable the reply
-- is `waits` and nothing has changed: the thread makes the call again when it is woken.
use video_compute_pipeline.Prelude.{
  ℕ, ◌-◌, ◌%◌, Bool, true, false, not, ◌&&◌, Option, none, some, List, [], ◌∷◌, get_or, set,
  replicate, ◌==◌, if◌then◌else◌,
}
use video_compute_pipeline.Prelude.Int.{ℤ, pos, eq_ℤ, success, yes_one, failure}
use video_compute_pipeline.Memory.{Heap, Block, calloc, free as free_block, add_size}
use video_compute_pipeline.FramePool.{Reply, waits, returns}
use video_compute_pipeline.Runner.Packet
use video_compute_pipeline.Runner.Packet.{PipelinePacket}

-- The array `items` has `capacity` elements.
pub record PacketQueue (T : Type 0) : Type 0 where
  pub items : Option (Block (PipelinePacket T))
  pub capacity : ℕ
  pub head : ℕ
  pub tail : ℕ
  pub count : ℕ
  pub closed : Bool

module _ {T : Type 0} where
  abbrev pub array : Option (Block (PipelinePacket T)) → List (PipelinePacket T)
  array none = []
  array (some b) = b.contents

  abbrev pub store :
      Option (Block (PipelinePacket T))
      → List (PipelinePacket T)
      → Option (Block (PipelinePacket T))
  store none ps = none
  store (some b) ps = some (record b { contents = ps })

  -- The queue that `memset` has cleared.
  abbrev pub zeroed : PacketQueue T
  zeroed = record { items = none; capacity = 0; head = 0; tail = 0; count = 0; closed = false }

  -- packet_queue_close.
  abbrev pub close : PacketQueue T → PacketQueue T
  close q = record q { closed = true }

module _ {T : Type 0} (zero_timing : T) where
  -- `packet_queue_init` once the array is there or not.
  init_items : Heap → ℕ → Option (Block (PipelinePacket T)) → Heap × PacketQueue T × ℤ
  init_items h capacity none = (h, zeroed, failure)
  init_items h capacity (some b) =
      (h, record zeroed { items = some b; capacity = capacity }, success)

  unfoldable pub init : Heap → PacketQueue T → ℕ → Heap × PacketQueue T × ℤ
  unfolding init_items calloc
  init h q capacity =
      if capacity == 0
      then (h, q, failure)
      else let (h', b) = calloc h (replicate capacity (Packet.init zero_timing)) in
        init_items h' capacity b

  -- `packet_free` of every element.
  unfoldable pub free_packets : Heap → List (PipelinePacket T) → Heap
  free_packets h [] = h
  free_packets h (p ∷ ps) = free_packets (Packet.free zero_timing h p).0 ps

  unfoldable pub free : Heap → PacketQueue T → Heap × PacketQueue T
  unfolding free_packets
  free h q = (
    free_block (free_packets h (array q.items)) q.items,
    record (close q) { items = none; capacity = 0; count = 0 },
  )

  unfoldable pub push :
      Heap → PacketQueue T → PipelinePacket T → Heap × PacketQueue T × PipelinePacket T × Reply
  push h q packet =
      if not q.closed && (q.count == q.capacity)
      then (h, q, packet, waits)
      else if q.closed
      then (h, q, packet, returns (pos 0))
      else let items = array q.items in
        let (h', dst, src, result) =
          Packet.move zero_timing h (get_or items q.tail (Packet.init zero_timing)) packet in
        let moved = store q.items (set items q.tail dst) in
        if not (eq_ℤ result success)
        then (h', record q { items = moved }, src, returns failure)
        else (
          h',
          record q {
            items = moved;
            tail = add_size q.tail 1 % q.capacity;
            count = add_size q.count 1;
          },
          src,
          returns yes_one,
        )

  -- The result of `packet_move` is not looked at here.
  unfoldable pub pop :
      Heap → PacketQueue T → PipelinePacket T → Heap × PacketQueue T × PipelinePacket T × Reply
  pop h q packet =
      if not q.closed && (q.count == 0)
      then (h, q, packet, waits)
      else if (q.count == 0) && q.closed
      then (h, q, packet, returns (pos 0))
      else let items = array q.items in
        let (h', dst, src, result) =
          Packet.move zero_timing h packet (get_or items q.head (Packet.init zero_timing)) in
        (
          h',
          record q {
            items = store q.items (set items q.head src);
            head = add_size q.head 1 % q.capacity;
            count = q.count - 1;
          },
          dst,
          returns yes_one,
        )
