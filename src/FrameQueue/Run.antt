-- ===== src/FrameQueue/Run.antt =====
-- Any sequence of pushes and pops on a frame queue, against a bounded first-in first-out list.
use video_compute_pipeline.Prelude.{
  ℕ, ◌≡◌, refl, ap₂, ◌∙◌, List, [], ◌∷◌, ◌++◌, arith, length, All, replicate, ◌==◌, if◌then◌else◌,
  eq→eq_true, ne→eq_false, ℕ_discrete, ◌≤◌, ◌<◌, Bool-cases, inl, inr, if_cases,
}
use video_compute_pipeline.Prelude.Int.{ℤ, success, failure}
use video_compute_pipeline.Prelude.Window.{length-window}
use video_compute_pipeline.Prelude.Ring.{fresh-IsRing}
use video_compute_pipeline.Memory.{Heap, calloc, size_max}
use video_compute_pipeline.Frame
use video_compute_pipeline.Frame.{Frame}
use video_compute_pipeline.Frame.Valid.{IsFilled}
use video_compute_pipeline.FrameQueue.Refine.{contents, IsQueue, push-Pushed, pop-Popped}
use video_compute_pipeline.FrameQueue.{FrameQueue, array, push, pop, init, init_items}

-- The specification: the queued frames, oldest first, what is left with the caller and the result.
abbrev fifo_push : ℕ → List Frame → Frame → List Frame × Frame × ℤ
fifo_push cap fs f =
    if length fs == cap then (fs, f, failure) else (fs ++ (f ∷ []), Frame.init, success)

abbrev fifo_pop : List Frame → List Frame × Frame × ℤ
fifo_pop [] = ([], Frame.init, failure)
fifo_pop (f ∷ fs) = (fs, f, success)

-- What a client asks; a pop is into an empty frame.
pub data Op : Type 0 where
  put : Frame → Op
  get : Op

abbrev pub fifo_run : ℕ → List Frame → List Op → List Frame × List (Frame × ℤ)
fifo_run cap fs [] = (fs, [])
fifo_run cap fs (put f ∷ ops) =
    let (fs', left, result) = fifo_push cap fs f in
    let rest = fifo_run cap fs' ops in (rest.0, (left, result) ∷ rest.1)
fifo_run cap fs (get ∷ ops) =
    let (fs', out, result) = fifo_pop fs in
    let rest = fifo_run cap fs' ops in (rest.0, (out, result) ∷ rest.1)

pub run : Heap → FrameQueue → List Op → Heap × FrameQueue × List (Frame × ℤ)
run h q [] = (h, q, [])
run h q (put f ∷ ops) =
    let (h', q', left, result) = push h q f in
    let rest = run h' q' ops in (rest.0, rest.1, (left, result) ∷ rest.2)
run h q (get ∷ ops) =
    let (h', q', out, result) = pop h q Frame.init in
    let rest = run h' q' ops in (rest.0, rest.1, (out, result) ∷ rest.2)

-- The frames that a client pushes are filled ones.
abbrev pub Fills : Op → Type 0
Fills (put f) = IsFilled f
Fills get = Unit

-- A call and its specification agree: the results, the contents, and nothing else happens.
record Agrees (h : Heap) (cap : ℕ) (spec : List Frame × Frame × ℤ)
    (r : Heap × FrameQueue × Frame × ℤ) : Type 0 where
  heap : r.0 ≡ h
  queue : IsQueue r.1
  capacity : r.1.capacity ≡ cap
  holds : contents r.1 ≡ spec.0
  frame : r.2 ≡ spec.1
  result : r.3 ≡ spec.2

length-contents : (q : FrameQueue) → length (contents q) ≡ q.count
length-contents q = length-window Frame.init (array q.items) q.capacity q.head q.count

push_full :
    (h : Heap) (q : FrameQueue) (f : Frame) → q.count ≡ q.capacity → push h q f ≡ (h, q, f, failure)
unfolding push
push_full h q f e = rw (eq→eq_true q.count q.capacity e)

pop_empty :
    (h : Heap) (q : FrameQueue) (out : Frame) → q.count ≡ 0 → pop h q out ≡ (h, q, out, failure)
unfolding pop
pop_empty h q out e = rw (eq→eq_true q.count 0 e)

push-Agrees :
    (h : Heap) (q : FrameQueue) (f : Frame)
    → IsQueue q
    → IsFilled f
    → Agrees h q.capacity (fifo_push q.capacity (contents q) f) (push h q f)
push-Agrees h q f v u = rw (length-contents q) (elim (ℕ_discrete q.count q.capacity) [
  | yes e ↦
      rw (eq→eq_true q.count q.capacity e, push_full h q f e)
        (record {
          heap = refl;
          queue = v;
          capacity = refl;
          holds = refl;
          frame = refl;
          result = refl;
        })
  | no n ↦
      let r = push-Pushed h q f v u n in
      rw (ne→eq_false q.count q.capacity n) (record {
        heap = r.heap;
        queue = r.queue;
        capacity = r.capacity;
        holds = r.appended;
        frame = r.frame;
        result = r.result;
      })
])

fifo_pop_some :
    {fs rest : List Frame} {f : Frame} → fs ≡ f ∷ rest → fifo_pop fs ≡ (rest, f, success)
fifo_pop_some e = rw e

fifo_pop_none :
    (fs : List Frame) → length fs ≡ 0 → (fs ≡ []) × (fifo_pop fs ≡ ([], Frame.init, failure))
fifo_pop_none [] e = (refl, refl)
fifo_pop_none (f ∷ fs) e = absurd (omega arith)

pop-Agrees :
    (h : Heap) (q : FrameQueue)
    → IsQueue q
    → Agrees h q.capacity (fifo_pop (contents q)) (pop h q Frame.init)
pop-Agrees h q v = elim (ℕ_discrete q.count 0) [
  | yes e ↦
      let nothing = fifo_pop_none (contents q) (length-contents q ∙ e) in
      rw (nothing.1, pop_empty h q Frame.init e)
        (record {
          heap = refl;
          queue = v;
          capacity = refl;
          holds = nothing.0;
          frame = refl;
          result = refl;
        })
  | no n ↦
      let r = pop-Popped h q Frame.init v n in
      rw (fifo_pop_some r.removed) (record {
        heap = r.heap;
        queue = r.queue;
        capacity = r.capacity;
        holds = refl;
        frame = refl;
        result = r.result;
      })
]

-- Whatever filled frames a client pushes onto a valid queue and whenever it pops into an empty
-- frame, the queue replies as the bounded list does, holds the same frames at the end, stays valid and leaves the heap alone.
pub run_refines :
    (ops : List Op) (h : Heap) (q : FrameQueue)
    → IsQueue q
    → All Fills ops
    → let (h', q', replies) = run h q ops in
      ((contents q', replies) ≡ fifo_run q.capacity (contents q) ops) × IsQueue q' × (h' ≡ h)
unfolding run
run_refines [] h q v u = (refl, v, refl)
run_refines (put f ∷ ops) h q v u =
    let a = push-Agrees h q f v u.0 in
    let rest = run_refines ops (push h q f).0 (push h q f).1 a.queue u.1 in
    let later = rest.0 ∙ ap₂ (λ c fs. fifo_run c fs ops) a.capacity a.holds in
    (λ i. ((later i).0, (a.frame i, a.result i) ∷ (later i).1), rest.1, rest.2 ∙ a.heap)
run_refines (get ∷ ops) h q v u =
    let a = pop-Agrees h q v in
    let rest = run_refines ops (pop h q Frame.init).0 (pop h q Frame.init).1 a.queue u.1 in
    let later = rest.0 ∙ ap₂ (λ c fs. fifo_run c fs ops) a.capacity a.holds in
    (λ i. ((later i).0, (a.frame i, a.result i) ∷ (later i).1), rest.1, rest.2 ∙ a.heap)

-- The outcome of `frame_queue_init`: if it succeeds the queue is valid and empty.
abbrev Ready : ℕ → Heap × FrameQueue × ℤ → Type 0
Ready capacity out =
    out.2 ≡ success → IsQueue out.1 × (contents out.1 ≡ []) × (out.1.capacity ≡ capacity)

init_past_guard :
    (h : Heap) (q : FrameQueue) (capacity : ℕ)
    → 0 < capacity
    → capacity ≤ size_max
    → let (h', b) = calloc h (replicate capacity Frame.init) in
      Ready capacity (init_items h' q capacity b)
unfolding calloc init_items
init_past_guard h q capacity p small = elim (Bool-cases (h.grants h.calls)) [
  | inr refused ↦ rw refused (λ e. cc)
  | inl given ↦ rw given (λ _. (
    record {
      block = record { address = h.calls; contents = replicate capacity Frame.init };
      stored = refl;
      ring = fresh-IsRing Frame.init capacity p;
      small = small;
      filled = tt;
    },
    refl,
    refl,
  ))
]

init_all :
    (h : Heap) (q : FrameQueue) (capacity : ℕ)
    → capacity ≤ size_max
    → Ready capacity (init h q capacity)
unfolding init
init_all h q capacity small =
    if_cases (Ready capacity) (capacity == 0) (λ z e. cc)
      (λ p. init_past_guard h q capacity (ground arith) small)

-- `frame_queue_init` that succeeds, for a capacity that a size_t holds, gives a valid empty queue of
-- that capacity.
pub init-IsQueue :
    (h : Heap) (q : FrameQueue) (capacity : ℕ)
    → capacity ≤ size_max
    → (init h q capacity).2 ≡ success
    → let (h', q', result) = init h q capacity in
      IsQueue q' × (contents q' ≡ []) × (q'.capacity ≡ capacity)
init-IsQueue h q capacity small e = init_all h q capacity small e
