-- ===== src/Runner/BatchQueue/Run.antt =====
-- pipeline/pipeline_runner.c: any sequence of calls on a detection queue, against a bounded first-in
-- first-out list that can be closed.
use video_compute_pipeline.Prelude.{
  ℕ, ◌≡◌, ◌≢◌, refl, sym, subst, ap₂, ◌∙◌, List, [], ◌∷◌, ◌++◌, Option, none, some, Bool, true,
  false, arith, length, All, ◌==◌, if◌then◌else◌, eq→eq_true, ne→eq_false, ℕ_discrete, Bool-cases,
  inl, inr,
}
use video_compute_pipeline.Prelude.Int.{pos, success, yes_one}
use video_compute_pipeline.Prelude.Window.{length-window}
use video_compute_pipeline.FramePool.{Reply, waits, returns}
use video_compute_pipeline.Runner.BatchQueue.{
  DetectionBatchQueue, array, detection_batch_queue_push, detection_batch_queue_pop,
  detection_async_slot_queue_try_pop, detection_batch_queue_close, take_oldest,
}
use video_compute_pipeline.Runner.BatchQueue.Refine.{
  contents, IsQueue, grown, grown_lem, take_oldest_lem,
}

-- What a thread asks of a queue.
pub data Call (P : Type 0) : Type 0 where
  push_call : P → Call P
  pop_call try_pop_call close_call : Call P

-- The specification: the pointers, oldest first, and whether the queue is closed.
pub record Fifo (P : Type 0) : Type 0 where
  pub held : List (Option P)
  pub shut : Bool

third :
    {A : Type 0} (x y : Bool) (a b c : A)
    → x ≡ false
    → y ≡ false
    → (if x then a else if y then b else c) ≡ c
third x y a b c hx hy = rw (hx, hy) refl

abbrev pub is_waits : Reply → Bool
is_waits waits = true
is_waits (returns n) = false

module _ {P : Type 0} where
  -- A call of the code, with the pointer that it hands out and its reply.
  abbrev pub step : DetectionBatchQueue P → Call P → DetectionBatchQueue P × Option P × Reply
  step q (push_call p) = let (q', reply) = detection_batch_queue_push q p in (q', none, reply)
  step q pop_call = detection_batch_queue_pop q
  step q try_pop_call = detection_async_slot_queue_try_pop q
  step q close_call = (detection_batch_queue_close q, none, returns success)

  abbrev fifo_take : Reply → List (Option P) → Bool → Fifo P × Option P × Reply
  fifo_take idle [] shut =
      (record { held = []; shut = shut }, none, (if shut then returns (pos 0) else idle))
  fifo_take idle (p ∷ held) shut = (record { held = held; shut = shut }, p, returns yes_one)

  abbrev pub fifo_step : ℕ → Fifo P → Call P → Fifo P × Option P × Reply
  fifo_step cap f (push_call p) =
      if f.shut
      then (f, none, returns (pos 0))
      else if length f.held == cap
      then (f, none, waits)
      else (record f { held = f.held ++ (some p ∷ []) }, none, returns yes_one)
  fifo_step cap f pop_call = fifo_take waits f.held f.shut
  fifo_step cap f try_pop_call = fifo_take (returns (pos 2)) f.held f.shut
  fifo_step cap f close_call = (record f { shut = true }, none, returns success)

  abbrev pub view : DetectionBatchQueue P → Fifo P
  view q = record { held = contents q; shut = q.closed }

  record Agrees (cap : ℕ) (spec : Fifo P × Option P × Reply)
      (r : DetectionBatchQueue P × Option P × Reply) : Type 0 where
    queue : IsQueue r.0
    capacity : r.0.capacity ≡ cap
    held : contents r.0 ≡ spec.0.held
    shut : r.0.closed ≡ spec.0.shut
    pointer : r.1 ≡ spec.1
    reply : r.2 ≡ spec.2

  module _ (q : DetectionBatchQueue P) (v : IsQueue q) where
    pub length-contents : length (contents q) ≡ q.count
    length-contents = length-window none (array q.items) q.capacity q.head q.count

    push_open :
        (p : P)
        → q.closed ≡ false
        → q.count ≢ q.capacity
        → detection_batch_queue_push q p ≡ (grown q v p, returns yes_one)
    unfolding detection_batch_queue_push
    push_open p e n = simp (e, ne→eq_false q.count q.capacity n) refl

    push-Agrees :
        (p : P)
        → Agrees q.capacity (fifo_step q.capacity (view q) (push_call p)) (step q (push_call p))
    unfolding detection_batch_queue_push
    push-Agrees p = rw (length-contents) (elim (Bool-cases q.closed) [
      | inl e ↦ simp e (record {
        queue = v;
        capacity = refl;
        held = refl;
        shut = e;
        pointer = refl;
        reply = refl;
      })
      | inr e ↦ elim (ℕ_discrete q.count q.capacity) [
        | yes full ↦
            simp (e, eq→eq_true q.count q.capacity full)
              (record {
                queue = v;
                capacity = refl;
                held = refl;
                shut = e;
                pointer = refl;
                reply = refl;
              })
        | no n ↦
            rw
              (
                push_open p e n,
                third {A = Fifo P × Option P × Reply} q.closed (q.count == q.capacity)
                    (view q, none, returns (pos 0)) (view q, none, waits)
                    (
                      record { held = contents q ++ (some p ∷ []); shut = q.closed },
                      none,
                      returns yes_one,
                    )
                    e (ne→eq_false q.count q.capacity n),
              )
              (let t = grown_lem q v p (omega (arith, n, v.ring.count_in)) in
                record {
                  queue = t.0;
                  capacity = refl;
                  held = t.1;
                  shut = refl;
                  pointer = refl;
                  reply = refl;
                })
      ]
    ])

    empty_held : q.count ≡ 0 → contents q ≡ []
    empty_held e = no_element (contents q) (length-contents ∙ e)
      where
        no_element : (ps : List (Option P)) → length ps ≡ 0 → ps ≡ []
        no_element [] h = refl
        no_element (p ∷ ps) h = absurd (omega (arith, h))

    take-Agrees :
        (idle : Reply) (r : DetectionBatchQueue P × Option P × Reply)
        → (q.count ≡ 0 → r ≡ (q, none, (if q.closed then returns (pos 0) else idle)))
        → (q.count ≢ 0 → r ≡ take_oldest q)
        → Agrees q.capacity (fifo_take idle (contents q) q.closed) r
    take-Agrees idle r none_left some_left = elim (ℕ_discrete q.count 0) [
      | yes e ↦
          rw (none_left e, empty_held e)
            (record {
              queue = v;
              capacity = refl;
              held = empty_held e;
              shut = refl;
              pointer = refl;
              reply = refl;
            })
      | no n ↦
          let t = take_oldest_lem q v n in
          rw (some_left n, t.1)
            (record {
              queue = t.0;
              capacity = t.3;
              held = refl;
              shut = t.4;
              pointer = refl;
              reply = t.2;
            })
    ]

    step-Agrees :
        (call : Call P) → Agrees q.capacity (fifo_step q.capacity (view q) call) (step q call)
    unfolding detection_batch_queue_pop detection_async_slot_queue_try_pop
        detection_batch_queue_close
    step-Agrees (push_call p) = push-Agrees p
    step-Agrees pop_call =
        take-Agrees waits (detection_batch_queue_pop q) (λ e. ground (arith, e))
          (λ n. ground (arith, n))
    step-Agrees try_pop_call =
        take-Agrees (returns (pos 2)) (detection_async_slot_queue_try_pop q)
          (λ e. ground (arith, e)) (λ n. ground (arith, n))
    step-Agrees close_call = rw v.stored (record {
      queue = record { block = v.block; stored = refl; ring = v.ring; small = v.small };
      capacity = refl;
      held = refl;
      shut = refl;
      pointer = refl;
      reply = refl;
    })

  -- The calls one after the other, each with the pointer that it hands out and its reply.
  unfoldable pub run :
      DetectionBatchQueue P → List (Call P) → DetectionBatchQueue P × List (Option P × Reply)
  run q [] = (q, [])
  run q (call ∷ calls) =
      let (q', out, reply) = step q call in
      let rest = run q' calls in (rest.0, (out, reply) ∷ rest.1)

  unfoldable pub fifo_run : ℕ → Fifo P → List (Call P) → Fifo P × List (Option P × Reply)
  fifo_run cap f [] = (f, [])
  fifo_run cap f (call ∷ calls) =
      let (f', out, reply) = fifo_step cap f call in
      let rest = fifo_run cap f' calls in (rest.0, (out, reply) ∷ rest.1)

  -- Any sequence of calls on a detection queue, as its threads make them in whatever order, has the
  -- replies, hands out the pointers and leaves the contents of a first-in first-out list of the
  -- queue's capacity that is closed once and for all.
  pub calls_refine :
      (q : DetectionBatchQueue P) (calls : List (Call P))
      → IsQueue q
      → ((view (run q calls).0, (run q calls).1) ≡ fifo_run q.capacity (view q) calls)
        × IsQueue (run q calls).0
  unfolding run fifo_run
  calls_refine q [] v = (refl, v)
  calls_refine q (call ∷ calls) v =
      let a = step-Agrees q v call in
      let rest = calls_refine (step q call).0 calls a.queue in
      let later =
        rest.0
        ∙ ap₂ (λ c f. fifo_run c f calls) a.capacity
            (λ i. record { held = a.held i; shut = a.shut i }) in
      (λ i. ((later i).0, (a.pointer i, a.reply i) ∷ (later i).1), rest.1)

  Unblocked : Fifo P × Option P × Reply → Type 0
  Unblocked r = (is_waits r.2 ≡ false) × (r.0.shut ≡ true)

  take-Unblocked : (idle : Reply) (held : List (Option P)) → Unblocked (fifo_take idle held true)
  unfolding Unblocked
  take-Unblocked idle [] = (refl, refl)
  take-Unblocked idle (p ∷ held) = (refl, refl)

  fifo-Unblocked :
      (n : ℕ) (held : List (Option P)) (call : Call P)
      → Unblocked (fifo_step n (record { held = held; shut = true }) call)
  unfolding Unblocked
  fifo-Unblocked n held (push_call p) = (refl, refl)
  fifo-Unblocked n held pop_call = take-Unblocked waits held
  fifo-Unblocked n held try_pop_call = take-Unblocked (returns (pos 2)) held
  fifo-Unblocked n held close_call = (refl, refl)

  -- Once a detection queue is closed, no call on it waits, whatever calls the threads make and in
  -- whatever order.
  pub closed_lem :
      (q : DetectionBatchQueue P) (calls : List (Call P))
      → IsQueue q
      → q.closed ≡ true
      → All (λ a. is_waits a.1 ≡ false) (run q calls).1
  unfolding run Unblocked
  closed_lem q [] v e = tt
  closed_lem q (call ∷ calls) v e =
      let a = step-Agrees q v call in
      let t =
        subst (λ s. Unblocked (fifo_step q.capacity (record { held = contents q; shut = s }) call))
          (sym e) (fifo-Unblocked q.capacity (contents q) call) in
      (rw (a.reply) (t.0), closed_lem (step q call).0 calls a.queue (a.shut ∙ t.1))
