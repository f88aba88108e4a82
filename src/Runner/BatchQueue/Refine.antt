-- ===== src/Runner/BatchQueue/Refine.antt =====
-- pipeline/pipeline_runner.c: what a push and a pop do to the pointers of a detection queue.
use video_compute_pipeline.Prelude.{
  suc, ◌+◌, ◌-◌, ◌%◌, ◌≤◌, ◌<◌, ◌≡◌, ◌≢◌, refl, ap, ◌∙◌, subst, List, [], ◌∷◌, ◌++◌, Option, none,
  some, arith, set,
}
use video_compute_pipeline.Prelude.Int.{yes_one}
use video_compute_pipeline.Prelude.Window.{window}
use video_compute_pipeline.Prelude.Ring.{
  IsRing, push_window, push-IsRing, pop_window, pop-IsRing, tail_in,
}
use video_compute_pipeline.Memory.{Block, add_size, size_max}
use video_compute_pipeline.FramePool.{returns}
use video_compute_pipeline.Runner.BatchQueue.{DetectionBatchQueue, array, store, take_oldest}

module _ {P : Type 0} where
  -- The pointers in the queue, oldest first.
  abbrev pub contents : DetectionBatchQueue P → List (Option P)
  contents q = window none (array q.items) q.capacity q.head q.count

  pub record IsQueue (q : DetectionBatchQueue P) : Type 0 where
    pub block : Block (Option P)
    pub stored : q.items ≡ some block
    pub ring : IsRing none block.contents q.capacity q.head q.tail q.count
    pub small : q.capacity ≤ size_max

module _ {P : Type 0} (q : DetectionBatchQueue P) (v : IsQueue q) where
  contents_stored : contents q ≡ window none v.block.contents q.capacity q.head q.count
  contents_stored = rw v.stored

  -- The queue with one more pointer.
  abbrev pub grown : P → DetectionBatchQueue P
  grown p = record q {
    items = store q.items (set (array q.items) q.tail (some p));
    tail = add_size q.tail 1 % q.capacity;
    count = add_size q.count 1;
  }

  pub grown_lem :
      (p : P)
      → q.count < q.capacity
      → IsQueue (grown p) × (contents (grown p) ≡ contents q ++ (some p ∷ []))
  grown_lem p below =
      rw (v.stored, no_wrap.0, no_wrap.1)
        (
          record {
            block = record v.block { contents = set v.block.contents q.tail (some p) };
            stored = refl;
            ring = push-IsRing none _ q.capacity q.head q.tail q.count v.ring (some p) below;
            small = v.small;
          },
          push_window none _ q.capacity q.head q.tail q.count v.ring (some p) below,
        )
    where
      no_wrap : (add_size q.tail 1 ≡ q.tail + 1) × (add_size q.count 1 ≡ suc q.count)
      no_wrap = omega (
        arith,
        tail_in none v.block.contents q.capacity q.head q.tail q.count v.ring,
        v.small,
        v.ring.count_in,
        below,
      )

  pub take_oldest_lem :
      q.count ≢ 0
      → IsQueue (take_oldest q).0
        × (contents q ≡ (take_oldest q).1 ∷ contents (take_oldest q).0)
        × ((take_oldest q).2 ≡ returns yes_one)
        × ((take_oldest q).0.capacity ≡ q.capacity)
        × ((take_oldest q).0.closed ≡ q.closed)
  unfolding take_oldest
  take_oldest_lem n =
      rw (v.stored, no_wrap)
        (
          record {
            block = record v.block { contents = set v.block.contents q.head none };
            stored = refl;
            ring = pop-IsRing none _ q.capacity q.head q.tail (q.count - 1) ring;
            small = v.small;
          },
          ap (window none v.block.contents q.capacity q.head) {x = q.count} {y = suc (q.count - 1)}
                (omega (arith, n))
              ∙ pop_window none _ q.capacity q.head q.tail (q.count - 1) ring,
          refl,
          refl,
          refl,
        )
    where
      ring : IsRing none v.block.contents q.capacity q.head q.tail (suc (q.count - 1))
      ring =
          subst (IsRing none v.block.contents q.capacity q.head q.tail) {x = q.count}
            {y = suc (q.count - 1)} (omega (arith, n)) v.ring

      no_wrap : add_size q.head 1 ≡ q.head + 1
      no_wrap = omega (arith, v.ring.head_in, v.small)
