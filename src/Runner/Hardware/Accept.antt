-- ===== src/Runner/Hardware/Accept.antt =====
-- pipeline/pipeline_runner.c: what `detection_output_batch_ordered` does with one completed batch.
use mathlib.Core.List.{Permᴰ}
use mathlib.Core.List.Permᴰ
use video_compute_pipeline.Prelude.{
  suc, ◌≡◌, refl, sym, ap, subst, ◌∙◌, inl, inr, Option, none, some, List, [], ◌∷◌, append-nil,
  length, All, arith, if_cases,
}
use video_compute_pipeline.Prelude.Int.{ℤ, pos, eq_ℤ, eq_ℤ_iff, is_neg, success}
use video_compute_pipeline.Prelude.Shuffle.{All-Permᴰ, Any-Permᴰ}
use video_compute_pipeline.Memory.{Heap, Block, calloc}
use video_compute_pipeline.FramePool.{Reply, returns}
use video_compute_pipeline.DetectionResult.{DetectionResult}
use video_compute_pipeline.Yolo.{Detection}
use video_compute_pipeline.Runner.Hardware.{HwServices, detection_hw_fail}
use video_compute_pipeline.Runner.Hardware.Output.{
  Batch, Context, Progress, replied, detection_batch_first_frame_id,
  detection_output_and_recycle_batch, detection_output_batch_ordered, output_ready,
}
use video_compute_pipeline.Runner.Hardware.PendingBatch.{
  PendingBatchNode, insert_node, detection_pending_batch_insert,
}
use video_compute_pipeline.Runner.Hardware.Log.{IsLogged}
use video_compute_pipeline.Runner.Hardware.Emit.{output-Emission, recycle-Recycled}
use video_compute_pipeline.Runner.Hardware.Chain.{link-Permᴰ, batches, batches-Permᴰ}
use video_compute_pipeline.Runner.Hardware.Reorder.{
  Labelled, IsDue, Ordered, Outcome, failed, ordered, results_of_all, next_step-Outcome,
  output_ready-Outcome,
}

-- An insertion that succeeds adds a node to the list.
Inserted :
    {P : Type 0} → List (PendingBatchNode P) → P → ℤ → Heap × List (PendingBatchNode P) × ℤ → Type 0
Inserted {P} ns b i out =
    out.2 ≡ success
    → (n : PendingBatchNode P) × (n.first_frame_id ≡ i) × (n.batch ≡ b) × Permᴰ (n ∷ ns) out.1

insert-Inserted :
    {P : Type 0} (h : Heap) (ns : List (PendingBatchNode P)) (b : P) (i : ℤ)
    → Inserted ns b i (detection_pending_batch_insert h ns b i)
unfolding Inserted detection_pending_batch_insert
insert-Inserted {P} h ns b i =
    if_cases (Inserted ns b i) (is_neg i) (λ e f. cc)
      (λ e. made (calloc h (i ∷ [])).0 (calloc h (i ∷ [])).1)
  where
    made : (h' : Heap) (o : Option (Block ℤ)) → Inserted ns b i (insert_node h' ns b i o)
    made h' none f = cc
    made h' (some a) f =
        (record { address = a.address; batch = b; first_frame_id = i }, refl, refl, link-Permᴰ _ ns)

module _ {T F R W : Type 0} (s : HwServices T F R W)
    (log : W → List (DetectionResult (Detection F R))) (l : IsLogged s log) where
  abbrev pub BatchOutcome : Context s → List (Batch s) → Progress s → Type 0
  BatchOutcome = Outcome s log l

  abbrev pub NodesLabelled : List (PendingBatchNode (Batch s)) → Type 0
  NodesLabelled = All (Labelled s log l)

  -- A batch before its turn is put in the list.
  kept-Ordered :
      (h : Heap) (ctx : Context s) (ns ms : List (PendingBatchNode (Batch s))) (b : Batch s)
      → NodesLabelled ns
      → (IsDue s log l ctx.next_frame_id ns → ⊥)
      → (detection_batch_first_frame_id s b ≡ pos ctx.next_frame_id → ⊥)
      → ((n : PendingBatchNode (Batch s)) × (n.first_frame_id ≡ detection_batch_first_frame_id s b)
          × (n.batch ≡ b)
          × Permᴰ (n ∷ ns) ms)
      → Ordered s log l ctx (b ∷ batches ns) (replied s h ctx ms (returns success))
  unfolding results_of_all
  kept-Ordered h ctx ns ms b lab due other (n, first, same, perm) = record {
    out = [];
    chain = refl;
    kept = subst (λ x. Permᴰ (x ∷ batches ns) (batches ms)) same (batches-Permᴰ perm);
    logged = sym (append-nil (log ctx.world));
    drained = λ d. elim (Any-Permᴰ _ (Permᴰ.symm perm) d) [
      | inl e ↦ other (sym first ∙ e)
      | inr later ↦ due later
    ];
    labelled =
        All-Permᴰ (Labelled s log l) perm
          (first ∙ ap (detection_batch_first_frame_id s) (sym same), lab);
  }

  -- A call with one batch.
  pub batch-Outcome :
      (h : Heap) (ctx : Context s) (ns : List (PendingBatchNode (Batch s))) (b : Batch s)
      → NodesLabelled ns
      → (IsDue s log l ctx.next_frame_id ns → ⊥)
      → BatchOutcome ctx (b ∷ batches ns) (detection_output_batch_ordered s h ctx ns b)
  unfolding detection_output_batch_ordered detection_hw_fail Inserted
  batch-Outcome h ctx ns b lab due =
      if_cases (BatchOutcome ctx (b ∷ batches ns)) (eq_ℤ first (pos ctx.next_frame_id))
        (λ e.
          next_step-Outcome s log l ctx b (b ∷ batches ns) (batches ns) h ns
            (output_ready s (suc (length ns)) h out.0 ns) ((eq_ℤ_iff first _).0 e)
            (Permᴰ.refl (b ∷ batches ns)) out (output-Emission s log l ctx b)
            (output_ready-Outcome s log l (suc (length ns)) h out.0 ns (omega arith) lab))
        λ e.
          if_cases (BatchOutcome ctx (b ∷ batches ns)) (eq_ℤ inserted.2 success)
            (λ g. ordered refl (
              kept-Ordered inserted.0 ctx ns inserted.1 b lab due
                (λ f. cc (e, (eq_ℤ_iff first (pos ctx.next_frame_id)).1 f))
                (insert-Inserted h ns b first ((eq_ℤ_iff inserted.2 success).0 g))))
            (λ g. failed refl (recycle-Recycled s log l (detection_hw_fail ctx) b).failed)
    where
      first : ℤ
      first = detection_batch_first_frame_id s b

      out : Context s × Reply
      out = detection_output_and_recycle_batch s ctx b

      inserted : Heap × List (PendingBatchNode (Batch s)) × ℤ
      inserted = detection_pending_batch_insert h ns b first
