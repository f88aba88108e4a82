-- ===== src/FramePool.antt =====
-- pipeline/frame_pool.h and pipeline/frame_pool.c: a fixed set of reusable frames behind a lock.
-- Each function is one critical section. Where the source waits on the condition variable, the
-- reply is `waits` and nothing has changed: the thread makes the call again when it is woken.
-- The lock and the condition variable themselves are the platform's.
pub mod Ledger
pub mod Init
pub mod Fresh
pub mod Slots
pub mod Invariant
pub mod Cases
pub mod Grants
pub mod Tests
use video_compute_pipeline.Prelude.{
  ℕ, suc, ◌+◌, ◌-◌, Bool, true, false, not, ◌&&◌, ◌||◌, Option, none, some, List, [], ◌∷◌,
  replicate, ◌==◌, if◌then◌else◌,
}
use video_compute_pipeline.Prelude.Int.{ℤ, pos, is_pos, eq_ℤ, success, yes_one, failure}
use video_compute_pipeline.Memory.{Heap, Block, calloc, free as free_block}
use video_compute_pipeline.Frame
use video_compute_pipeline.Frame.{Frame, FrameFormat}
use video_compute_pipeline.FrameSlot
use video_compute_pipeline.FrameSlot.{FrameSlot}

-- The array `slots` has `capacity` elements.
pub record FramePool : Type 0 where
  pub slots : Option (Block FrameSlot)
  pub capacity : ℕ
  pub available : ℕ
  pub closed : Bool
  pub lock_initialized : Bool

-- What a call that may wait replies.
pub data Reply : Type 0 where
  waits : Reply
  returns : ℤ → Reply

abbrev pub array : Option (Block FrameSlot) → List FrameSlot
array none = []
array (some b) = b.contents

abbrev pub store : Option (Block FrameSlot) → List FrameSlot → Option (Block FrameSlot)
store none ss = none
store (some b) ss = some (record b { contents = ss })

unfoldable pub close : FramePool → FramePool
close p = if not p.lock_initialized then p else record p { closed = true }

-- `frame_slot_free` of every slot.
unfoldable pub free_slots : Heap → List FrameSlot → Heap
free_slots h [] = h
free_slots h (s ∷ ss) = free_slots (FrameSlot.free h s).0 ss

unfoldable pub free : Heap → FramePool → Heap × FramePool
unfolding close free_slots
free h p =
    let p' = close p in
    (
      free_block (free_slots h (array p'.slots)) p'.slots,
      record p' { slots = none; capacity = 0; available = 0; lock_initialized = false },
    )

-- The loop that allocates a frame for every slot: the slots, how many are filled, and whether
-- every frame was allocated.
unfoldable pub fill_slots :
    ℤ → ℤ → FrameFormat → Heap → List FrameSlot → Heap × List FrameSlot × ℕ × Bool
fill_slots width height format h [] = (h, [], 0, true)
fill_slots width height format h (s ∷ ss) =
    let (h', f, result) = Frame.alloc h FrameSlot.init.frame width height format in
    let rest = fill_slots width height format h' ss in
    if not (eq_ℤ result success)
    then (h', record FrameSlot.init { frame = f } ∷ ss, 0, false)
    else (rest.0, record FrameSlot.init { frame = f; occupied = true } ∷ rest.1, suc rest.2, rest.3)

-- `frame_pool_init` once the array is there or not.
init_slots :
    Heap → FramePool → ℕ → ℤ → ℤ → FrameFormat → Option (Block FrameSlot) → Heap × FramePool × ℤ
unfolding free fill_slots
init_slots h p capacity width height format none = let (h', p') = free h p in (h', p', failure)
init_slots h p capacity width height format (some b) =
    let (h', ss, available, filled) = fill_slots width height format h b.contents in
    let p' = record p {
      slots = some (record b { contents = ss });
      capacity = capacity;
      available = available;
    } in
    if filled then (h', p', success) else let (h'', p'') = free h' p' in (h'', p'', failure)

-- The pool that `memset` has cleared, with its lock made.
abbrev pub zeroed : FramePool
zeroed = record {
  slots = none;
  capacity = 0;
  available = 0;
  closed = false;
  lock_initialized = true;
}

unfoldable pub init : Heap → FramePool → ℕ → ℤ → ℤ → FrameFormat → Heap × FramePool × ℤ
unfolding init_slots calloc
init h p capacity width height format =
    if capacity == 0 || (not (is_pos width) || not (is_pos height))
    then (h, p, failure)
    else let (h', b) = calloc h (replicate capacity FrameSlot.init) in
      init_slots h' zeroed capacity width height format b

-- The loop of `frame_pool_acquire`: take the first occupied slot. `none`: there is none.
unfoldable pub take_first : Heap → List FrameSlot → Frame → Heap × List FrameSlot × Frame × Option ℤ
take_first h [] out = (h, [], out, none)
take_first h (s ∷ ss) out =
    let rest = take_first h ss out in
    if s.occupied
    then (let (h', s', out', result) = FrameSlot.take h s out in (h', s' ∷ ss, out', some result))
    else (rest.0, s ∷ rest.1, rest.2, rest.3)

-- What `frame_pool_acquire` does with the result of `frame_slot_take`.
acquired : FramePool → Option ℤ → FramePool × Reply
acquired p none = (p, returns failure)
acquired p (some result) =
    if eq_ℤ result success
    then (record p { available = p.available - 1 }, returns yes_one)
    else (p, returns failure)

unfoldable pub acquire : Heap → FramePool → Frame → Heap × FramePool × Frame × Reply
unfolding take_first acquired
acquire h p out =
    if not p.lock_initialized
    then (h, p, out, returns failure)
    else if not p.closed && (p.available == 0)
    then (h, p, out, waits)
    else if p.closed
    then (h, p, out, returns (pos 0))
    else let (h', ss, out', result) = take_first h (array p.slots) out in
      let (p', reply) = acquired (record p { slots = store p.slots ss }) result in
      (h', p', out', reply)

-- The loop of `frame_pool_release`: put the frame into the first slot that is not occupied.
unfoldable pub put_first : Heap → List FrameSlot → Frame → Heap × List FrameSlot × Frame × Option ℤ
put_first h [] frame = (h, [], frame, none)
put_first h (s ∷ ss) frame =
    let rest = put_first h ss frame in
    if not s.occupied
    then (let (h', s', f', result) = FrameSlot.put h s frame in (h', s' ∷ ss, f', some result))
    else (rest.0, s ∷ rest.1, rest.2, rest.3)

-- What `frame_pool_release` does with the result of `frame_slot_put`; a frame for which no slot is
-- free is freed.
released : Heap → FramePool → Frame → Option ℤ → Heap × FramePool × Frame × ℤ
released h p frame none = let (h', f) = Frame.free h frame in (h', p, f, failure)
released h p frame (some result) =
    if eq_ℤ result success
    then (h, record p { available = p.available + 1 }, frame, result)
    else (h, p, frame, result)

unfoldable pub release : Heap → FramePool → Frame → Heap × FramePool × Frame × ℤ
unfolding put_first released
release h p frame =
    if not (Frame.is_valid frame)
    then (h, p, frame, failure)
    else if not p.lock_initialized
    then (let (h', f) = Frame.free h frame in (h', p, f, failure))
    else if p.closed
    then (let (h', f) = Frame.free h frame in (h', p, f, success))
    else let (h', ss, f, result) = put_first h (array p.slots) frame in
      released h' (record p { slots = store p.slots ss }) f result

unfoldable pub available : FramePool → ℕ
available p = if not p.lock_initialized then 0 else p.available
