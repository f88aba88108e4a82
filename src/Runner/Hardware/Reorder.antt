-- ===== src/Runner/Hardware/Reorder.antt =====
-- pipeline/pipeline_runner.c: the batches that a call of `detection_output_batch_ordered` puts out
-- follow each other, whatever order they come in, and none is lost.
use mathlib.Core.List.{Permᴰ}
use mathlib.Core.List.Permᴰ
use video_compute_pipeline.Prelude.{
  ℕ, zero, suc, ◌+◌, ◌<◌, ◌≡◌, refl, sym, ap, subst, ◌∙◌, true, Option, none, some, List, [], ◌∷◌,
  ◌++◌, append-nil, append_assoc, length, All, arith,
}
use video_compute_pipeline.Prelude.Int.{pos, pos_part, success, failure}
use video_compute_pipeline.Prelude.Shuffle.{Any, All-Permᴰ, length-Permᴰ, Permᴰ-cons}
use video_compute_pipeline.Memory.{Heap}
use video_compute_pipeline.FramePool.{Reply, waits, returns}
use video_compute_pipeline.DetectionResult.{DetectionResult}
use video_compute_pipeline.Yolo.{Detection}
use video_compute_pipeline.Runner.Hardware.{HwServices}
use video_compute_pipeline.Runner.Hardware.Output.{
  Batch, Context, Progress, detection_batch_first_frame_id, detection_output_and_recycle_batch,
  output_ready, next_step, ready_round,
}
use video_compute_pipeline.Runner.Hardware.PendingBatch.{
  PendingBatchNode, unlink, taken, free_node, detection_pending_batch_take,
}
use video_compute_pipeline.Runner.Hardware.Log.{IsLogged, results_of}
use video_compute_pipeline.Runner.Hardware.Emit.{
  IsFull, Emission, blocked, gave_up, emitted, output-Emission,
}
use video_compute_pipeline.Runner.Hardware.Chain.{
  Found, missing, found, unlink-Found, batches, batches-Permᴰ, Chain,
}

module _ {T F R W : Type 0} (s : HwServices T F R W)
    (log : W → List (DetectionResult (Detection F R))) (l : IsLogged s log) where
  abbrev pub Node : Type 0
  Node = PendingBatchNode (Batch s)

  -- The detections of all the batches, one after the other.
  unfoldable pub results_of_all : List (Batch s) → List (DetectionResult (Detection F R))
  results_of_all [] = []
  results_of_all (b ∷ bs) = results_of s b ++ results_of_all bs

  pub results_of_all-append :
      (bs cs : List (Batch s)) → results_of_all (bs ++ cs) ≡ results_of_all bs ++ results_of_all cs
  unfolding results_of_all
  results_of_all-append [] cs = refl
  results_of_all-append (b ∷ bs) cs =
      ap (λ r. results_of s b ++ r) (results_of_all-append bs cs)
      ∙ sym (append_assoc (results_of s b) (results_of_all bs) (results_of_all cs))

  -- A node has the first frame of its batch.
  abbrev pub Labelled : Node → Type 0
  Labelled n = n.first_frame_id ≡ detection_batch_first_frame_id s n.batch

  abbrev pub IsDue : ℕ → List Node → Type 0
  IsDue k ns = Any (λ n. n.first_frame_id ≡ pos k) ns

  -- The batches of `given` are put out in part, one following the other; the others are pending, and it
  -- is not the turn of any.
  pub record Ordered (ctx : Context s) (given : List (Batch s)) (p : Progress s) : Type 0 where
    pub out : List (Batch s)
    pub chain : Chain s ctx.next_frame_id out p.ctx.next_frame_id
    pub kept : Permᴰ given (out ++ batches p.pending)
    pub logged : log p.ctx.world ≡ log ctx.world ++ results_of_all out
    pub drained : IsDue p.ctx.next_frame_id p.pending → ⊥
    pub labelled : All Labelled p.pending

  -- What a call or a run of calls does, by its reply.
  pub data Outcome (ctx : Context s) (given : List (Batch s)) (p : Progress s) : Type 0 where
    stuck : p.reply ≡ waits → IsFull p.ctx.free_batch_queue → Outcome ctx given p
    failed : p.reply ≡ returns failure → p.ctx.failed ≡ true → Outcome ctx given p
    ordered : p.reply ≡ returns success → Ordered ctx given p → Outcome ctx given p

  -- A batch that is put out before the others.
  pub Outcome-after :
      (ctx ctx' : Context s) (b : Batch s) (given rest : List (Batch s)) (p : Progress s)
      → detection_batch_first_frame_id s b ≡ pos ctx.next_frame_id
      → ctx'.next_frame_id ≡ ctx.next_frame_id + pos_part b.valid_frames
      → log ctx'.world ≡ log ctx.world ++ results_of s b
      → Permᴰ given (b ∷ rest)
      → Outcome ctx' rest p
      → Outcome ctx given p
  unfolding results_of_all
  Outcome-after ctx ctx' b given rest p first next logged perm (stuck e f) = stuck e f
  Outcome-after ctx ctx' b given rest p first next logged perm (failed e f) = failed e f
  Outcome-after ctx ctx' b given rest p first next logged perm (ordered e o) = ordered e (record {
    out = b ∷ o.out;
    chain = (first, subst (λ k. Chain s k o.out p.ctx.next_frame_id) next o.chain);
    kept = Permᴰ.trans perm (Permᴰ-cons o.kept);
    logged =
        o.logged
        ∙ ap (λ x. x ++ results_of_all o.out) logged
        ∙ append_assoc (log ctx.world) (results_of s b) (results_of_all o.out);
    drained = o.drained;
    labelled = o.labelled;
  })

  pub next_step-Outcome :
      (ctx : Context s) (b : Batch s) (given rest : List (Batch s)) (h : Heap) (ns : List Node)
      (more : Progress s)
      → detection_batch_first_frame_id s b ≡ pos ctx.next_frame_id
      → Permᴰ given (b ∷ rest)
      → (out : Context s × Reply) → Emission s log l ctx b out
      → Outcome out.0 rest more
      → Outcome ctx given (next_step s out h ns more)
  unfolding next_step
  next_step-Outcome ctx b given rest h ns more first perm (ctx', reply) (blocked e full) o =
      rw e (stuck refl full)
  next_step-Outcome ctx b given rest h ns more first perm (ctx', reply) (gave_up e f) o =
      rw e (failed refl f)
  next_step-Outcome ctx b given rest h ns more first perm (ctx', reply) (emitted e next logged) o =
      rw e (Outcome-after ctx ctx' b given rest more first next logged perm o)

  abbrev Loop : Type 0
  Loop = Heap → Context s → List Node → Progress s

  ready_round-Outcome :
      (go : Loop) (h : Heap) (ctx : Context s) (ns : List Node) (o : Option (Node × List Node))
      → Found (pos ctx.next_frame_id) ns o
      → ((h' : Heap) (ctx' : Context s) (rest : List Node)
          → length rest < length ns
          → All Labelled rest
          → Outcome ctx' (batches rest) (go h' ctx' rest))
      → All Labelled ns
      → Outcome ctx (batches ns) (ready_round s go ctx (taken h ns o))
  unfolding ready_round results_of_all
  ready_round-Outcome go h ctx ns none (missing m) ih lab = ordered refl (record {
    out = [];
    chain = refl;
    kept = Permᴰ.refl (batches ns);
    logged = sym (append-nil (log ctx.world));
    drained = m;
    labelled = lab;
  })
  ready_round-Outcome go h ctx ns (some (n, rest)) (found at perm) ih lab =
      next_step-Outcome ctx n.batch (batches ns) (batches rest) (free_node h n) rest
        (go (free_node h n) out.0 rest) (sym (All-Permᴰ Labelled perm lab).0 ∙ at)
        (batches-Permᴰ perm) out (output-Emission s log l ctx n.batch)
        (ih (free_node h n) out.0 rest (omega (arith, length-Permᴰ perm))
          (All-Permᴰ Labelled perm lab).1)
    where
      out : Context s × Reply
      out = detection_output_and_recycle_batch s ctx n.batch

  -- With fuel for each pending batch the loop stops when it is the turn of none.
  pub output_ready-Outcome :
      (fuel : ℕ) (h : Heap) (ctx : Context s) (ns : List Node)
      → length ns < fuel
      → All Labelled ns
      → Outcome ctx (batches ns) (output_ready s fuel h ctx ns)
  unfolding output_ready detection_pending_batch_take
  output_ready-Outcome zero h ctx ns lt lab = absurd (omega (arith, lt))
  output_ready-Outcome (suc fuel) h ctx ns lt lab =
      ready_round-Outcome (output_ready s fuel) h ctx ns (unlink (pos ctx.next_frame_id) ns)
        (unlink-Found (pos ctx.next_frame_id) ns)
        (λ h' ctx' rest less. output_ready-Outcome fuel h' ctx' rest (omega (arith, lt, less))) lab
