-- ===== src/FramePool/Ledger.antt =====
-- No operation of the pool loses a buffer, duplicates one or frees one twice: the blocks that are
-- freed, in the pool or with the caller are the same before and after, each as often.
use video_compute_pipeline.Prelude.{
  ℕ, ◌+◌, ◌≡◌, refl, List, [], ◌∷◌, ◌++◌, Option, none, some, arith, Bool-cases, inl, inr, if_ind,
  not, ◌&&◌, ◌==◌,
}
use video_compute_pipeline.Prelude.Count.{count, SameItems, items}
use video_compute_pipeline.Memory.{Heap, Block}
use video_compute_pipeline.Frame
use video_compute_pipeline.Frame.{Frame}
use video_compute_pipeline.Frame.Ledger.{address, owned, count-retire, move-SameItems}
use video_compute_pipeline.Prelude.Int.{ℤ}
use video_compute_pipeline.FrameSlot
use video_compute_pipeline.FrameSlot.{FrameSlot}
use video_compute_pipeline.FramePool.{
  FramePool, Reply, array, store, close, free_slots, free, take_first, acquire, acquired, put_first,
  release, released,
}

abbrev pub slots_owned : List FrameSlot → List ℕ
slots_owned [] = []
slots_owned (s ∷ ss) = owned s.frame ++ slots_owned ss

-- The array itself and the frames in it.
abbrev pub pool_owned : FramePool → List ℕ
pool_owned p = address p.slots ++ slots_owned (array p.slots)

take-count :
    (h : Heap) (s : FrameSlot) (out : Frame) (a : ℕ)
    → let (h', s', out', result) = FrameSlot.take h s out in
      count a h'.freed + (count a (owned out') + count a (owned s'.frame))
      ≡ count a h.freed + (count a (owned out) + count a (owned s.frame))
unfolding FrameSlot.take
take-count h s out a = ground (arith, move-SameItems h out s.frame a)

put-count :
    (h : Heap) (s : FrameSlot) (f : Frame) (a : ℕ)
    → let (h', s', f', result) = FrameSlot.put h s f in
      count a h'.freed + (count a (owned s'.frame) + count a (owned f'))
      ≡ count a h.freed + (count a (owned s.frame) + count a (owned f))
unfolding FrameSlot.put
put-count h s f a = ground (arith, move-SameItems h s.frame f a)

take_first-count :
    (h : Heap) (ss : List FrameSlot) (out : Frame) (a : ℕ)
    → let (h', ss', out', result) = take_first h ss out in
      count a h'.freed + (count a (owned out') + count a (slots_owned ss'))
      ≡ count a h.freed + (count a (owned out) + count a (slots_owned ss))
unfolding take_first
take_first-count h [] out a = refl
take_first-count h (s ∷ ss) out a = elim (Bool-cases s.occupied) [
  | inl e ↦ simp e (omega (items, take-count h s out a))
  | inr e ↦ simp e (omega (items, take_first-count h ss out a))
]

put_first-count :
    (h : Heap) (ss : List FrameSlot) (f : Frame) (a : ℕ)
    → let (h', ss', f', result) = put_first h ss f in
      count a h'.freed + (count a (owned f') + count a (slots_owned ss'))
      ≡ count a h.freed + (count a (owned f) + count a (slots_owned ss))
unfolding put_first
put_first-count h [] f a = refl
put_first-count h (s ∷ ss) f a = elim (Bool-cases s.occupied) [
  | inr e ↦ simp e (omega (items, put-count h s f a))
  | inl e ↦ simp e (omega (items, put_first-count h ss f a))
]

free-count :
    (h : Heap) (f : Frame) (a : ℕ)
    → count a (Frame.free h f).0.freed ≡ count a h.freed + count a (owned f)
free-count h f a = omega (arith, count-retire a f.pixels h.freed)

free_slots-count :
    (h : Heap) (ss : List FrameSlot) (a : ℕ)
    → count a (free_slots h ss).freed ≡ count a h.freed + count a (slots_owned ss)
unfolding free_slots
free_slots-count h [] a = omega items
free_slots-count h (s ∷ ss) a =
    omega (items, free-count h s.frame a, free_slots-count (FrameSlot.free h s).0 ss a)

-- What the pool owns once the loop has written its slots back.
stored : Option (Block FrameSlot) → List FrameSlot → List ℕ
stored slots ss = address (store slots ss) ++ slots_owned (array (store slots ss))

take_first-stored :
    (h : Heap) (slots : Option (Block FrameSlot)) (out : Frame) (a : ℕ)
    → let (h', ss', out', result) = take_first h (array slots) out in
      count a h'.freed + (count a (owned out') + count a (stored slots ss'))
      ≡ count a h.freed
        + (count a (owned out) + count a (address slots ++ slots_owned (array slots)))
unfolding take_first stored
take_first-stored h none out a = refl
take_first-stored h (some b) out a = omega (items, take_first-count h b.contents out a)

put_first-stored :
    (h : Heap) (slots : Option (Block FrameSlot)) (f : Frame) (a : ℕ)
    → let (h', ss', f', result) = put_first h (array slots) f in
      count a h'.freed + (count a (owned f') + count a (stored slots ss'))
      ≡ count a h.freed + (count a (owned f) + count a (address slots ++ slots_owned (array slots)))
unfolding put_first stored
put_first-stored h none f a = refl
put_first-stored h (some b) f a = omega (items, put_first-count h b.contents f a)

acquired-slots : (p : FramePool) (r : Option ℤ) → (acquired p r).0.slots ≡ p.slots
unfolding acquired
acquired-slots p none = refl
acquired-slots p (some r) = ground arith

released-count :
    (h : Heap) (p : FramePool) (f : Frame) (r : Option ℤ) (a : ℕ)
    → let (h', p', f', result) = released h p f r in
      count a h'.freed + (count a (owned f') + count a (pool_owned p'))
      ≡ count a h.freed + (count a (owned f) + count a (pool_owned p))
unfolding released
released-count h p f none a = omega (items, free-count h f a)
released-count h p f (some r) a = ground arith

-- `frame_pool_acquire`, whatever it replies: no buffer is lost, duplicated or freed twice.
pub acquire-SameItems :
    (h : Heap) (p : FramePool) (out : Frame)
    → let (h', p', out', reply) = acquire h p out in
      SameItems (h'.freed ++ owned out' ++ pool_owned p') (h.freed ++ owned out ++ pool_owned p)
unfolding acquire stored
acquire-SameItems h p out a =
    if_ind P (not p.lock_initialized) refl
      (if_ind P (not p.closed && (p.available == 0)) refl (if_ind P p.closed refl taken))
  where
    P : Heap × FramePool × Frame × Reply → Type 0
    P r =
        count a (r.0.freed ++ owned r.2 ++ pool_owned r.1)
        ≡ count a (h.freed ++ owned out ++ pool_owned p)

    result : Option ℤ
    result = (take_first h (array p.slots) out).3

    ss : List FrameSlot
    ss = (take_first h (array p.slots) out).1

    taken : P (
      (take_first h (array p.slots) out).0,
      (acquired (record p { slots = store p.slots ss }) result).0,
      (take_first h (array p.slots) out).2,
      (acquired (record p { slots = store p.slots ss }) result).1,
    )
    taken =
        rw (acquired-slots (record p { slots = store p.slots ss }) result)
          (omega (items, take_first-stored h p.slots out a))

-- `frame_pool_release`, whatever it returns: no buffer is lost, duplicated or freed twice.
pub release-SameItems :
    (h : Heap) (p : FramePool) (f : Frame)
    → let (h', p', f', result) = release h p f in
      SameItems (h'.freed ++ owned f' ++ pool_owned p') (h.freed ++ owned f ++ pool_owned p)
unfolding release stored
release-SameItems h p f a = if_ind P (not (Frame.is_valid f)) refl (
    if_ind P (not p.lock_initialized) (omega (items, free-count h f a)) (
      if_ind P p.closed (omega (items, free-count h f a)) (
        omega (
          items,
          released-count h' (record p { slots = store p.slots ss }) f' result a,
          put_first-stored h p.slots f a,
        ))))
  where
    P : Heap × FramePool × Frame × ℤ → Type 0
    P r =
        count a (r.0.freed ++ owned r.2 ++ pool_owned r.1)
        ≡ count a (h.freed ++ owned f ++ pool_owned p)

    h' : Heap
    h' = (put_first h (array p.slots) f).0

    ss : List FrameSlot
    ss = (put_first h (array p.slots) f).1

    f' : Frame
    f' = (put_first h (array p.slots) f).2

    result : Option ℤ
    result = (put_first h (array p.slots) f).3

close-slots : (p : FramePool) → (close p).slots ≡ p.slots
unfolding close
close-slots p = ground arith

-- `frame_pool_free` frees every buffer of the pool, and the pool owns none afterwards.
pub free-SameItems :
    (h : Heap) (p : FramePool)
    → let (h', p') = free h p in (pool_owned p' ≡ []) × SameItems h'.freed (h.freed ++ pool_owned p)
unfolding free
free-SameItems h p = (
  refl,
  λ a. rw (close-slots p) (
      omega (
        items,
        count-retire a p.slots (free_slots h (array p.slots)).freed,
        free_slots-count h (array p.slots) a,
      )),
)
