-- ===== src/Runner/Hardware/PendingBatch.antt =====
-- pipeline/pipeline_runner.c: the list of batches that came before their turn, and that of the slots of
-- the asynchronous pipeline, which has its code. `P` is the type of the pointers, and a node has the
-- frame id that the pointer had when it was put in. The link `next` of a node is the rest of the list.
use video_compute_pipeline.Prelude.{ℕ, Option, none, some, List, [], ◌∷◌, if◌then◌else◌}
use video_compute_pipeline.Prelude.Int.{ℤ, is_neg, eq_ℤ, ltb_ℤ, success, failure}
use video_compute_pipeline.Memory.{Heap, Block, calloc, free as free_block}

-- A node, with the address of its block.
pub record PendingBatchNode (P : Type 0) : Type 0 where
  pub address : ℕ
  pub batch : P
  pub first_frame_id : ℤ

module _ {P : Type 0} where
  -- The loop of `detection_pending_batch_insert`: `cur` comes before the new node.
  unfoldable pub insert_after :
      PendingBatchNode P
      → PendingBatchNode P
      → List (PendingBatchNode P)
      → List (PendingBatchNode P)
  insert_after node cur [] = cur ∷ node ∷ []
  insert_after node cur (next ∷ rest) =
      let further = insert_after node next rest in
      if ltb_ℤ next.first_frame_id node.first_frame_id
      then cur ∷ further
      else cur ∷ node ∷ next ∷ rest

  unfoldable pub link : PendingBatchNode P → List (PendingBatchNode P) → List (PendingBatchNode P)
  unfolding insert_after
  link node [] = node ∷ []
  link node (first ∷ rest) =
      if ltb_ℤ node.first_frame_id first.first_frame_id
      then node ∷ first ∷ rest
      else insert_after node first rest

  -- `detection_pending_batch_insert` once the node is there or not.
  abbrev pub insert_node :
      Heap
      → List (PendingBatchNode P)
      → P
      → ℤ
      → Option (Block ℤ)
      → Heap × List (PendingBatchNode P) × ℤ
  insert_node h head batch first_frame_id none = (h, head, failure)
  insert_node h head batch first_frame_id (some b) = (
    h,
    link (record { address = b.address; batch = batch; first_frame_id = first_frame_id }) head,
    success,
  )

  unfoldable pub detection_pending_batch_insert :
      Heap → List (PendingBatchNode P) → P → ℤ → Heap × List (PendingBatchNode P) × ℤ
  detection_pending_batch_insert h head batch first_frame_id =
      let (h', b) = calloc h (first_frame_id ∷ []) in
      if is_neg first_frame_id
      then (h, head, failure)
      else insert_node h' head batch first_frame_id b

  abbrev pub keep :
      PendingBatchNode P
      → Option (PendingBatchNode P × List (PendingBatchNode P))
      → Option (PendingBatchNode P × List (PendingBatchNode P))
  keep prev none = none
  keep prev (some (n, rest)) = some (n, prev ∷ rest)

  -- The search of `detection_pending_batch_take`: the first node of the frame, and the list without it.
  unfoldable pub unlink :
      ℤ → List (PendingBatchNode P) → Option (PendingBatchNode P × List (PendingBatchNode P))
  unlink frame_id [] = none
  unlink frame_id (cur ∷ rest) =
      let later = unlink frame_id rest in
      if eq_ℤ cur.first_frame_id frame_id then some (cur, rest) else keep cur later

  abbrev pub free_node : Heap → PendingBatchNode P → Heap
  free_node h n =
      free_block h (some (record { address = n.address; contents = n.first_frame_id ∷ [] }))

  abbrev pub taken :
      Heap
      → List (PendingBatchNode P)
      → Option (PendingBatchNode P × List (PendingBatchNode P))
      → Heap × List (PendingBatchNode P) × Option P
  taken h head none = (h, head, none)
  taken h head (some (n, rest)) = (free_node h n, rest, some n.batch)

  unfoldable pub detection_pending_batch_take :
      Heap → List (PendingBatchNode P) → ℤ → Heap × List (PendingBatchNode P) × Option P
  detection_pending_batch_take h head frame_id = taken h head (unlink frame_id head)

-- The list of the slots of the asynchronous pipeline; `frame_id` reads a slot.
module _ {S : Type 0} where
  abbrev pub detection_async_pending_insert :
      (S → ℤ) → Heap → List (PendingBatchNode S) → S → Heap × List (PendingBatchNode S) × ℤ
  detection_async_pending_insert frame_id h head slot =
      detection_pending_batch_insert h head slot (frame_id slot)

  abbrev pub detection_async_pending_take :
      Heap → List (PendingBatchNode S) → ℤ → Heap × List (PendingBatchNode S) × Option S
  detection_async_pending_take h head frame_id = detection_pending_batch_take h head frame_id
