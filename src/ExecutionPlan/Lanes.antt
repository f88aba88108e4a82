-- ===== src/ExecutionPlan/Lanes.antt =====
-- pipeline/pipeline_execution_plan.c: the counts of a plan.
use video_compute_pipeline.Prelude.{
  ℕ, zero, suc, ◌*◌, ◌%◌, ◌^◌, ◌≤◌, ◌<◌, ◌≡◌, refl, sym, ap, ap₂, ◌∙◌, ◌↔◌, Bool, true, false, ◌&&◌,
  ◌||◌, Option, none, some, leb, arith, if_cases, if_ind, if◌then◌else◌,
}
use video_compute_pipeline.Prelude.Int.{ℤ, pos, negsuc, pos_part, ltb_ℤ}
use video_compute_pipeline.Config.Settings.{PipelineConfig}
use video_compute_pipeline.ExecutionPlan.Profile.{
  Doubles, VideoProfile, HardwareProfile, InferenceBatchCapability, wrap_int,
}
use video_compute_pipeline.ExecutionPlan.{
  PipelineExecutionPlan, is_on, is_auto, estimate_per_frame_gpu_bytes, budget_or_default,
  vram_budget, best_batch, at_least_one,
}
use video_compute_pipeline.ExecutionPlan.Build.{
  backend_batch, min_ℤ, set_mode, set_unsupported, set_contexts, wanted_contexts, max_contexts,
  planned_inflight, plan_before_contexts, pipeline_execution_plan_build,
}

product_pos : (a b n : ℕ) → 1 ≤ a → 1 ≤ b → a * b ≡ n → 1 ≤ n
product_pos zero b n ha hb e = omega (arith, ha)
product_pos (suc a) zero n ha hb e = omega (arith, hb)
product_pos (suc a) (suc b) n ha hb e = omega (arith, e)

wrap_int_small : (n : ℕ) → n < 2 ^ 31 → wrap_int n ≡ pos n
wrap_int_small n h = rw small (ground (arith, h))
  where
    small : n % 2 ^ 32 ≡ n
    small = omega (arith, h)

at_least_one_lem : (n : ℤ) → 1 ≤ at_least_one n
at_least_one_lem (pos n) = ground arith
at_least_one_lem (negsuc n) = ground arith

backend_batch_lem :
    (best : ℕ) (capability : Option InferenceBatchCapability)
    → 1 ≤ best
    → (1 ≤ backend_batch best capability) × (backend_batch best capability ≤ best)
unfolding backend_batch
backend_batch_lem best none h = (omega arith, h)
backend_batch_lem best (some capability) h = ground arith

min_lem :
    (a b : ℤ) (n : ℕ)
    → b ≡ pos n
    → ltb_ℤ (pos 1) (min_ℤ a b) ≡ true
    → (2 ≤ pos_part (min_ℤ a b)) × (pos_part (min_ℤ a b) ≤ n)
min_lem a b n e h = ground arith

abbrev pub in_lanes : ℤ → PipelineExecutionPlan → PipelineExecutionPlan
in_lanes requested plan = record plan {
  parallel_inference_enabled = true;
  inference_context_count = pos_part requested;
  inference_lane_count = pos_part requested;
  inference_serialized = false;
}

-- The contexts are as they were, or more than one and as many as the active frames at most.
pub set_contexts_ind :
    {F D : Type 0} (P : PipelineExecutionPlan → Type 0) (config : PipelineConfig F)
    (hardware : Option (HardwareProfile D)) (capability : Option InferenceBatchCapability)
    (plan : PipelineExecutionPlan)
    → P plan
    → ((n : ℤ)
        → ltb_ℤ (pos 1) (min_ℤ n plan.total_active_frames) ≡ true
        → P (in_lanes (min_ℤ n plan.total_active_frames) plan))
    → P (set_contexts config hardware capability plan)
unfolding set_contexts
set_contexts_ind P config hardware none plan h lanes = h
set_contexts_ind P config hardware (some capability) plan h lanes =
    if_ind P
      ((is_on config.parallel_inference_mode || is_auto config.parallel_inference_mode)
        && capability.supports_parallel_contexts)
      (if_cases P (ltb_ℤ (pos 1) (min_ℤ wanted plan.total_active_frames)) (lanes wanted) (λ _. h)) h
  where
    wanted : ℤ
    wanted = min_ℤ (wanted_contexts config plan) (max_contexts config hardware capability)

-- The counts of a plan, of so many active frames.
pub record IsPlan (plan : PipelineExecutionPlan) (n : ℕ) : Type 0 where
  pub batch : 1 ≤ plan.batch_size
  pub schedule : plan.schedule_batch_size ≡ plan.batch_size
  pub backend : (1 ≤ plan.backend_batch_size) × (plan.backend_batch_size ≤ plan.batch_size)
  pub inflight : 1 ≤ plan.inflight_batches
  pub active : plan.total_active_frames ≡ pos n
  pub contexts : (1 ≤ plan.inference_context_count) × (plan.inference_context_count ≤ n)
  pub lanes : plan.inference_lane_count ≡ plan.inference_context_count
  pub serial : plan.inference_serialized ≡ leb plan.inference_context_count 1
  pub mode : (plan.execution_mode ≡ 3) ↔ (2 ≤ plan.inference_context_count)

module _ {F D : Type 0} (c : Doubles F D) (config : PipelineConfig F) (video : VideoProfile D) where
  finished-IsPlan :
      (hardware : Option (HardwareProfile D)) (capability : Option InferenceBatchCapability)
      (plan : PipelineExecutionPlan) (n : ℕ)
      → IsPlan (set_mode (set_unsupported config plan)) n
      → plan.parallel_inference_enabled ≡ false
      → IsPlan (set_mode (set_unsupported config (set_contexts config hardware capability plan))) n
  finished-IsPlan hardware capability plan n v off =
      set_contexts_ind (λ p. IsPlan (set_mode (set_unsupported config p)) n) config hardware
        capability plan v
        (λ m e.
          let t = min_lem m plan.total_active_frames n v.active e in
          record {
            batch = v.batch;
            schedule = v.schedule;
            backend = v.backend;
            inflight = v.inflight;
            active = v.active;
            contexts = (omega (arith, t.0), t.1);
            lanes = refl;
            serial = ground (arith, t.0);
            mode = (λ _. t.0, λ _. refl);
          })

  not_three :
      (overlap batching : Bool)
      → (◌≡◌ {A = ℕ} (if overlap then 2 else if batching then 1 else 0) 3) ↔ ◌≤◌ 2 1
  not_three overlap batching = ground arith

  unchanged :
      (hardware : Option (HardwareProfile D)) (capability : Option InferenceBatchCapability)
      (plan : PipelineExecutionPlan)
      → ((set_contexts config hardware capability plan).batch_size ≡ plan.batch_size)
        × ((set_contexts config hardware capability plan).inflight_batches ≡ plan.inflight_batches)
  unchanged hardware capability plan =
      set_contexts_ind
        (λ p. (p.batch_size ≡ plan.batch_size) × (p.inflight_batches ≡ plan.inflight_batches))
        config hardware capability plan (refl, refl) (λ m e. (refl, refl))

  before-IsPlan :
      (hardware : Option (HardwareProfile D)) (capability : Option InferenceBatchCapability) (n : ℕ)
      → (plan_before_contexts config c video hardware capability).batch_size
          * (plan_before_contexts config c video hardware capability).inflight_batches
        ≡ n
      → n < 2 ^ 31
      → IsPlan
          (set_mode
            (set_unsupported config (plan_before_contexts config c video hardware capability)))
          n
  unfolding plan_before_contexts
  before-IsPlan hardware capability n e fits = record {
    batch = at_least_one_lem best;
    schedule = refl;
    backend = backend_batch_lem (at_least_one best) capability (at_least_one_lem best);
    inflight = at_least_one_lem inflight;
    active = ap wrap_int e ∙ wrap_int_small n fits;
    contexts =
        (omega arith, product_pos _ _ n (at_least_one_lem best) (at_least_one_lem inflight) e);
    lanes = refl;
    serial = refl;
    mode = not_three _ _;
  }
    where
      per_frame : ℕ
      per_frame = estimate_per_frame_gpu_bytes video capability

      budget : ℕ
      budget = budget_or_default (vram_budget c config hardware) per_frame

      best : ℤ
      best = best_batch c budget per_frame config video hardware

      inflight : ℤ
      inflight = planned_inflight config budget per_frame (at_least_one best)

  no_contexts :
      (hardware : Option (HardwareProfile D)) (capability : Option InferenceBatchCapability)
      → (plan_before_contexts config c video hardware capability).parallel_inference_enabled ≡ false
  unfolding plan_before_contexts
  no_contexts hardware capability = refl

  -- The plan of any configuration, video, hardware and capability, if its batches in flight have n
  -- frames and n fits an int: the counts are at least 1, the backend takes at most one batch at a time,
  -- the active frames are n, and there are at most as many contexts as active frames. Each context has
  -- one lane, and the run is serialized, and not of mode 3, exactly if it has one context.
  pub pipeline_execution_plan_build-IsPlan :
      (hardware : Option (HardwareProfile D)) (capability : Option InferenceBatchCapability) (n : ℕ)
      → (pipeline_execution_plan_build config c video hardware capability).batch_size
          * (pipeline_execution_plan_build config c video hardware capability).inflight_batches
        ≡ n
      → n < 2 ^ 31
      → IsPlan (pipeline_execution_plan_build config c video hardware capability) n
  unfolding pipeline_execution_plan_build
  pipeline_execution_plan_build-IsPlan hardware capability n e fits =
      finished-IsPlan hardware capability before n
        (before-IsPlan hardware capability n (ap₂ (λ a b. a * b) (sym same.0) (sym same.1) ∙ e)
          fits)
        (no_contexts hardware capability)
    where
      before : PipelineExecutionPlan
      before = plan_before_contexts config c video hardware capability

      same :
          ((set_contexts config hardware capability before).batch_size ≡ before.batch_size)
          × ((set_contexts config hardware capability before).inflight_batches
              ≡ before.inflight_batches)
      same = unchanged hardware capability before
