-- ===== src/Runner/Pending.antt =====
-- pipeline/pipeline_runner.c: the encoder's list of packets that came before their turn.
-- The link `next` of a node is the rest of the list.
use video_compute_pipeline.Prelude.{ℕ, Option, none, some, List, [], ◌∷◌, if◌then◌else◌}
use video_compute_pipeline.Prelude.Int.{ℤ, pos, eq_ℤ, ltb_ℤ, success, yes_one, failure}
use video_compute_pipeline.Memory.{Heap, Block, calloc, free as free_block}
use video_compute_pipeline.Runner.Packet
use video_compute_pipeline.Runner.Packet.{PipelinePacket}

-- A node, with the address of its block.
pub record PendingNode (T : Type 0) : Type 0 where
  pub address : ℕ
  pub packet : PipelinePacket T

module _ {T : Type 0} where
  abbrev pub index : PendingNode T → ℤ
  index n = n.packet.frame.index

  -- The loop of `pending_insert`: `cur` comes before the new node.
  unfoldable pub insert_after :
      PendingNode T → PendingNode T → List (PendingNode T) → List (PendingNode T)
  insert_after node cur [] = cur ∷ node ∷ []
  insert_after node cur (next ∷ rest) =
      let further = insert_after node next rest in
      if ltb_ℤ (index next) (index node) then cur ∷ further else cur ∷ node ∷ next ∷ rest

  unfoldable pub insert_sorted : PendingNode T → List (PendingNode T) → List (PendingNode T)
  unfolding insert_after
  insert_sorted node [] = node ∷ []
  insert_sorted node (first ∷ rest) =
      if ltb_ℤ (index node) (index first) then node ∷ first ∷ rest else insert_after node first rest

  unfoldable pub keep :
      PendingNode T
      → Option (PendingNode T × List (PendingNode T))
      → Option (PendingNode T × List (PendingNode T))
  keep prev none = none
  keep prev (some (n, rest)) = some (n, prev ∷ rest)

  -- The search of `pending_take`: the first node with the index, and the list without it.
  unfoldable pub unlink : ℤ → List (PendingNode T) → Option (PendingNode T × List (PendingNode T))
  unfolding keep
  unlink frame_id [] = none
  unlink frame_id (cur ∷ rest) =
      let later = unlink frame_id rest in
      if eq_ℤ (index cur) frame_id then some (cur, rest) else keep cur later

  -- free of a node.
  abbrev free_node : Heap → PendingNode T → Heap
  free_node h n = free_block h (some (record { address = n.address; contents = n.packet ∷ [] }))

module _ {T : Type 0} (zero_timing : T) where
  -- `pending_insert` once the node is there or not; the result of `packet_move` is not looked at.
  unfoldable pub insert_node :
      Heap
      → List (PendingNode T)
      → PipelinePacket T
      → Option (Block (PipelinePacket T))
      → Heap × List (PendingNode T) × PipelinePacket T × ℤ
  insert_node h head packet none = (h, head, packet, failure)
  insert_node h head packet (some b) =
      let (h', moved, left, result) = Packet.move zero_timing h (Packet.init zero_timing) packet in
      (h', insert_sorted (record { address = b.address; packet = moved }) head, left, success)

  unfoldable pub insert :
      Heap
      → List (PendingNode T)
      → PipelinePacket T
      → Heap × List (PendingNode T) × PipelinePacket T × ℤ
  unfolding insert_node calloc
  insert h head packet =
      let (h', b) = calloc h (Packet.init zero_timing ∷ []) in insert_node h' head packet b

  -- `pending_take` once its search is over.
  unfoldable pub hand_over :
      Heap
      → List (PendingNode T)
      → PipelinePacket T
      → Option (PendingNode T × List (PendingNode T))
      → Heap × List (PendingNode T) × PipelinePacket T × ℤ
  hand_over h head out none = (h, head, out, pos 0)
  hand_over h head out (some (n, rest)) =
      let (h', to, from, result) = Packet.move zero_timing h out n.packet in
      let (h'', freed) = Packet.free zero_timing h' from in
      (free_node h'' (record n { packet = freed }), rest, to, yes_one)

  unfoldable pub take :
      Heap
      → List (PendingNode T)
      → ℤ
      → PipelinePacket T
      → Heap × List (PendingNode T) × PipelinePacket T × ℤ
  unfolding hand_over unlink
  take h head frame_id out = hand_over h head out (unlink frame_id head)

  unfoldable pub free_all : Heap → List (PendingNode T) → Heap
  free_all h [] = h
  free_all h (n ∷ next) =
      let (h', freed) = Packet.free zero_timing h n.packet in
      free_all (free_node h' (record n { packet = freed })) next
