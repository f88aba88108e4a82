-- ===== src/ExecutionPlan/Batch.antt =====
-- pipeline/pipeline_execution_plan.c: auto-tuning takes the largest batch that fits.
use video_compute_pipeline.Prelude.{
  ℕ, ◌^◌, if_ind, ◌≤◌, ◌<◌, ◌≡◌, refl, sym, ap, subst, ◌∙◌, ◌⊎◌, inl, inr, Bool, true, false,
  Option, List, [], ◌∷◌, All, arith, if_cases,
}
use video_compute_pipeline.Prelude.Int.{pos}
use video_compute_pipeline.Config.Settings.{PipelineConfig}
use video_compute_pipeline.ExecutionPlan.Profile.{
  Doubles, VideoProfile, HardwareProfile, InferenceBatchCapability,
}
use video_compute_pipeline.ExecutionPlan.{
  is_manual, candidates, last_fitting, estimate_per_frame_gpu_bytes, candidate_fits, best_batch,
  at_least_one, budget_or_default, vram_budget,
}
use video_compute_pipeline.ExecutionPlan.Build.{plan_before_contexts, pipeline_execution_plan_build}
use video_compute_pipeline.ExecutionPlan.Lanes.{set_contexts_ind}
use video_compute_pipeline.ExecutionPlan.Fits.{
  frame_need, batch_need, per_frame_exact, Fits, Exceeds, passed, failed_test,
}

-- Each number is at least the one before it.
abbrev Ascending : ℕ → List ℕ → Type 0
Ascending best [] = Unit
Ascending best (x ∷ xs) = (best ≤ x) × Ascending x xs

weaken : (a b : ℕ) (xs : List ℕ) → a ≤ b → Ascending b xs → Ascending a xs
weaken a b [] h v = tt
weaken a b (x ∷ xs) h v = (omega (arith, h, v.0), v.1)

module _ (fits : ℕ → Bool) where
  abbrev Chosen : List ℕ → ℕ → ℕ → Type 0
  Chosen xs best r =
      (best ≤ r) × ((r ≡ best) ⊎ (fits r ≡ true)) × All (λ x. (fits x ≡ false) ⊎ (x ≤ r)) xs

  chosen : (xs : List ℕ) (best : ℕ) → Ascending best xs → Chosen xs best (last_fitting fits xs best)
  unfolding last_fitting
  chosen [] best v = (omega arith, inl refl, tt)
  chosen (x ∷ xs) best v =
      if_cases (λ next. Chosen (x ∷ xs) best (last_fitting fits xs next)) (fits x)
        (λ e.
          let t = chosen xs x v.1 in
          (
            omega (arith, t.0, v.0),
            elim t.1 [ inl same ↦ inr (ap fits same ∙ e) | inr f ↦ inr f ],
            (inr t.0, t.2),
          ))
        (λ e. let t = chosen xs best (weaken best x xs v.0 v.1) in (t.0, t.1, (inl e, t.2)))

last_fitting_lem : (fits : ℕ → Bool) → Chosen fits candidates 1 (last_fitting fits candidates 1)
last_fitting_lem fits =
    chosen fits candidates 1
      (omega arith, (omega arith, (omega arith, (omega arith, (omega arith, (omega arith, tt))))))

-- The largest candidate bounds what the loop returns.
last_fitting_bound :
    (fits : ℕ → Bool) (m : ℕ) (xs : List ℕ) (best : ℕ)
    → best ≤ m
    → All (λ x. x ≤ m) xs
    → last_fitting fits xs best ≤ m
unfolding last_fitting
last_fitting_bound fits m [] best h v = h
last_fitting_bound fits m (x ∷ xs) best h v =
    last_fitting_bound fits m xs _ (if_ind (λ n. n ≤ m) (fits x) v.0 h) v.1

candidates_bound : All (λ x. x ≤ 8) candidates
candidates_bound =
    (omega arith, (omega arith, (omega arith, (omega arith, (omega arith, (omega arith, tt))))))

clamped : (n : ℕ) → 1 ≤ n → at_least_one (pos n) ≡ n
clamped n h = ground arith

All_map₂ :
    {A : Type 0} {P Q R : A → Type 0}
    → ((a : A) → P a → Q a → R a)
    → (xs : List A) → All P xs
    → All Q xs
    → All R xs
All_map₂ f [] h g = tt
All_map₂ f (x ∷ xs) h g = (f x h.0 g.0, All_map₂ f xs h.1 g.1)

module _ {F D : Type 0} (c : Doubles F D) (config : PipelineConfig F) (video : VideoProfile D)
    (hardware : Option (HardwareProfile D)) where
  -- The batch that auto-tuning takes for a budget.
  abbrev pub Tuned : ℕ → ℕ → ℕ → Type 0
  Tuned batch budget per_frame =
      ((batch ≡ 1) ⊎ Fits c config video hardware budget per_frame batch)
      × All (λ other. Exceeds c config video hardware budget per_frame other ⊎ (other ≤ batch))
          (1 ∷ 2 ∷ 3 ∷ 4 ∷ 6 ∷ 8 ∷ [])

  tuned_best :
      (budget per_frame : ℕ)
      → is_manual config.batch_size_mode ≡ false
      → config.enable_auto_tune ≡ true
      → best_batch c budget per_frame config video hardware
        ≡ pos (last_fitting (candidate_fits c budget per_frame config video hardware) candidates 1)
  unfolding best_batch
  tuned_best budget per_frame manual tune = rw (manual, tune) refl

  best-Tuned :
      (budget per_frame batch : ℕ)
      → batch_need per_frame 8 < 2 ^ 64
      → batch ≤ 8
      → Chosen (candidate_fits c budget per_frame config video hardware) candidates 1 batch
      → Tuned (at_least_one (pos batch)) budget per_frame
  best-Tuned budget per_frame batch h b t =
      subst (λ n. Tuned n budget per_frame) (sym (clamped batch t.0))
        (
          elim t.1 [
            | inl same ↦ inl same
            | inr f ↦ inr (passed c config video hardware budget per_frame batch h b f)
          ],
          All_map₂ bounded candidates t.2 candidates_bound,
        )
    where
      bounded :
          (other : ℕ)
          → (candidate_fits c budget per_frame config video hardware other ≡ false)
            ⊎ (other ≤ batch)
          → other ≤ 8
          → Exceeds c config video hardware budget per_frame other ⊎ (other ≤ batch)
      bounded other (inl refused) l =
          inl (failed_test c config video hardware budget per_frame other h l refused)
      bounded other (inr le) l = inr le

  module _ (capability : Option InferenceBatchCapability)
      (bounded : batch_need (frame_need video capability) 8 < 2 ^ 64) where
    per_frame_same : estimate_per_frame_gpu_bytes video capability ≡ frame_need video capability
    per_frame_same = per_frame_exact video capability (omega (arith, bounded))

    before-Tuned :
        is_manual config.batch_size_mode ≡ false
        → config.enable_auto_tune ≡ true
        → Tuned
            (plan_before_contexts config c video hardware capability).batch_size
            (plan_before_contexts config c video hardware capability).vram_budget_bytes
            (frame_need video capability)
    unfolding plan_before_contexts
    before-Tuned manual tune =
        subst
          (λ n.
            Tuned (at_least_one (best_batch c (budget n) n config video hardware)) (budget n)
              (frame_need video capability))
          (sym per_frame_same)
          (subst (λ b. Tuned (at_least_one b) (budget need) need)
            (sym (tuned_best (budget need) need manual tune))
            (best-Tuned (budget need) need _ bounded
              (last_fitting_bound fits 8 candidates 1 (omega arith) candidates_bound)
              (last_fitting_lem fits)))
      where
        need : ℕ
        need = frame_need video capability

        budget : ℕ → ℕ
        budget n = budget_or_default (vram_budget c config hardware) n

        fits : ℕ → Bool
        fits = candidate_fits c (budget need) need config video hardware

    -- Where the batch size is left to auto-tuning and the bytes of eight frames and 16 MB are
    -- below 2 ^ 64, the plan's batch is 1, or its bytes are within the plan's memory budget and
    -- its transfers take no more than a quarter of the time of its frames; every other batch of 1,
    -- 2, 3, 4, 6 and 8 is no larger, or exceeds the budget or the time. A frame's bytes are those
    -- of its pixels, of the engine's input and output, and a quarter of its pixels, at least 4 MB.
    -- The transfers run at 70% of the measured bandwidth, with 0.05 ms for each direction. Without
    -- hardware, or with a bandwidth that is not measured, there is no limit of time.
    pub pipeline_execution_plan_build-Tuned :
        is_manual config.batch_size_mode ≡ false
        → config.enable_auto_tune ≡ true
        → Tuned
            (pipeline_execution_plan_build config c video hardware capability).batch_size
            (pipeline_execution_plan_build config c video hardware capability).vram_budget_bytes
            (frame_need video capability)
    unfolding pipeline_execution_plan_build
    pipeline_execution_plan_build-Tuned manual tune =
        set_contexts_ind (λ p. Tuned p.batch_size p.vram_budget_bytes (frame_need video capability))
          config hardware capability (plan_before_contexts config c video hardware capability)
          (before-Tuned manual tune) (λ m e. before-Tuned manual tune)
