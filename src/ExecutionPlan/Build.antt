-- ===== src/ExecutionPlan/Build.antt =====
-- pipeline/pipeline_execution_plan.c: pipeline_execution_plan_build, as the stages that write the
-- fields of the plan, in the order of the source.
use video_compute_pipeline.Prelude.{
  ℕ, ◌-◌, ◌*◌, Bool, true, false, not, ◌&&◌, ◌||◌, Option, none, some, ltb, leb, if◌then◌else◌,
}
use video_compute_pipeline.Prelude.Int.{ℤ, pos, pos_part, is_pos, ltb_ℤ}
use video_compute_pipeline.Config.Settings.{PipelineConfig}
use video_compute_pipeline.ExecutionPlan.Profile.{
  Doubles, VideoProfile, HardwareProfile, InferenceBatchCapability, wrap_int, size_mul,
}
use video_compute_pipeline.ExecutionPlan.{
  PipelineExecutionPlan, pipeline_execution_plan_init, is_nvdec, is_manual, is_on, is_auto, one_if,
  at_least_one, estimate_batch, estimate_per_frame_gpu_bytes, vram_budget, budget_or_default,
  best_batch,
}

abbrev pub capability_batching : Option InferenceBatchCapability → Bool
capability_batching none = false
capability_batching (some capability) = capability.supports_true_batching

abbrev pub min_ℤ : ℤ → ℤ → ℤ
min_ℤ a b = if ltb_ℤ b a then b else a

-- How many frames the backend takes at a time.
unfoldable pub backend_batch : ℕ → Option InferenceBatchCapability → ℕ
backend_batch best none = 1
backend_batch best (some capability) =
    if capability.supports_true_batching && ltb_ℤ (pos 1) capability.max_batch_size
    then (if ltb_ℤ (pos best) capability.max_batch_size
        then best
        else pos_part capability.max_batch_size)
    else 1

abbrev output_bytes : Option InferenceBatchCapability → ℕ
output_bytes none = 0
output_bytes (some capability) = capability.output_bytes_per_frame

abbrev pub no_concurrent_kernels : {D : Type 0} → Option (HardwareProfile D) → Bool
no_concurrent_kernels none = false
no_concurrent_kernels (some hardware) = not hardware.concurrent_kernels

abbrev pub has_async_engine : {D : Type 0} → Option (HardwareProfile D) → Bool
has_async_engine none = false
has_async_engine (some hardware) = is_pos hardware.async_engine_count

abbrev pub set_mode : PipelineExecutionPlan → PipelineExecutionPlan
set_mode plan = record plan {
  execution_mode =
      if plan.parallel_inference_enabled
      then 3
      else if plan.pipeline_overlap_enabled
      then 2
      else if plan.transfer_batching_enabled
      then 1
      else 0;
}

abbrev pub with_contexts : ℤ → PipelineExecutionPlan → PipelineExecutionPlan
with_contexts requested plan =
    if ltb_ℤ (pos 1) requested
    then record plan {
      parallel_inference_enabled = true;
      inference_context_count = pos_part requested;
      inference_lane_count = pos_part requested;
      inference_serialized = false;
    }
    else plan

module _ {F : Type 0} (config : PipelineConfig F) where
  abbrev pub set_flags :
      {D : Type 0}
      → VideoProfile D
      → Option (HardwareProfile D)
      → Option InferenceBatchCapability
      → PipelineExecutionPlan
  set_flags video hardware capability = record pipeline_execution_plan_init {
    prefer_gpu_resident_path = is_nvdec config.decoder_mode;
    allow_full_frame_download = video.requires_raw_download;
    frames_per_upload_batch = one_if video.requires_raw_upload;
    frames_per_download_batch = one_if video.requires_raw_download;
    use_pinned_memory = video.requires_raw_upload || video.requires_raw_download;
    use_contiguous_batch_buffers = video.requires_raw_upload || video.requires_raw_download;
    use_async_copies = has_async_engine hardware;
    supports_true_backend_batching = capability_batching capability;
    inference_context_count = 1;
    inference_serialized = true;
  }

  abbrev pub set_reason : ℤ → PipelineExecutionPlan → PipelineExecutionPlan
  set_reason best plan = record plan {
    fallback_reason =
        if not config.enable_auto_tune && not (is_manual config.batch_size_mode)
        then "auto-tune disabled; preserving single-frame behavior"
        else if not plan.supports_true_backend_batching && ltb_ℤ (pos 1) best
        then "schedule batch exceeds backend batch; running single-frame inference lanes"
        else "selected by execution planner";
  }

  -- The batches in flight before they are clamped.
  unfoldable pub planned_inflight : ℕ → ℕ → ℕ → ℤ
  planned_inflight budget per_frame best =
      if is_manual config.inflight_batches_mode
      then config.inflight_batches
      else if config.enable_auto_tune && leb (size_mul (size_mul per_frame best) 4) budget
      then pos 2
      else pos 1

  abbrev pub set_batches :
      ℕ → ℤ → Option InferenceBatchCapability → PipelineExecutionPlan → PipelineExecutionPlan
  set_batches per_frame best capability plan =
      let batch = at_least_one best in
      let inflight = at_least_one (planned_inflight plan.vram_budget_bytes per_frame batch) in
      record plan {
        batch_size = batch;
        schedule_batch_size = batch;
        backend_batch_size = backend_batch batch capability;
        true_backend_batching_enabled = ltb 1 (backend_batch batch capability);
        inflight_batches = inflight;
        total_active_frames = wrap_int (batch * inflight);
        active_frame_capacity = wrap_int (batch * inflight);
      }

  abbrev pub set_sizes :
      {D : Type 0}
      → ℕ
      → VideoProfile D
      → Option InferenceBatchCapability
      → PipelineExecutionPlan
      → PipelineExecutionPlan
  set_sizes per_frame video capability plan =
      let batch = plan.batch_size in
      let estimated = estimate_batch per_frame batch in
      let batching = (video.requires_raw_upload || video.requires_raw_download) && ltb 1 batch in
      record plan {
        frames_per_upload_batch = if video.requires_raw_upload then batch else 0;
        frames_per_download_batch = if video.requires_raw_download then batch else 0;
        estimated_batch_bytes = estimated;
        unused_vram_budget_bytes =
            if ltb estimated plan.vram_budget_bytes then plan.vram_budget_bytes - estimated else 0;
        transfer_batching_enabled = batching;
        pinned_host_batch_bytes = if batching then size_mul video.frame_bytes batch else 0;
        device_raw_batch_bytes =
            if video.requires_raw_upload then size_mul video.frame_bytes batch else 0;
        device_output_batch_bytes = size_mul (output_bytes capability) batch;
      }

  abbrev pub set_overlap : PipelineExecutionPlan → PipelineExecutionPlan
  set_overlap plan = record plan {
    pipeline_overlap_enabled =
        if is_on config.pipeline_overlap_mode
        then true
        else if is_auto config.pipeline_overlap_mode
        then (config.enable_auto_tune && ltb_ℤ (pos 1) plan.total_active_frames)
          && plan.use_async_copies
        else plan.pipeline_overlap_enabled;
  }

  -- The contexts that the run may use, for a capability with parallel contexts.
  unfoldable pub max_contexts :
      {D : Type 0} → Option (HardwareProfile D) → InferenceBatchCapability → ℤ
  max_contexts hardware capability =
      if no_concurrent_kernels hardware && is_auto config.parallel_inference_mode
      then pos 1
      else if is_pos capability.max_parallel_contexts
      then capability.max_parallel_contexts
      else pos 1

  unfoldable pub wanted_contexts : PipelineExecutionPlan → ℤ
  wanted_contexts plan =
      if is_manual config.inference_contexts_mode
      then config.inference_contexts
      else if is_on config.parallel_inference_mode || is_auto config.parallel_inference_mode
      then (if ltb 1 plan.batch_size then pos plan.batch_size else pos plan.inflight_batches)
      else pos 1

  -- The contexts, where the mode is not off.
  unfoldable pub set_contexts :
      {D : Type 0}
      → Option (HardwareProfile D)
      → Option InferenceBatchCapability
      → PipelineExecutionPlan
      → PipelineExecutionPlan
  unfolding max_contexts wanted_contexts
  set_contexts hardware none plan = plan
  set_contexts hardware (some capability) plan =
      if (is_on config.parallel_inference_mode || is_auto config.parallel_inference_mode)
        && capability.supports_parallel_contexts
      then with_contexts
          (min_ℤ (min_ℤ (wanted_contexts plan) (max_contexts hardware capability))
            plan.total_active_frames)
          plan
      else plan

  abbrev pub set_unsupported : PipelineExecutionPlan → PipelineExecutionPlan
  set_unsupported plan = record plan {
    fallback_reason =
        if is_on config.parallel_inference_mode && not plan.parallel_inference_enabled
        then "parallel inference requested but unsupported by current runtime/resources"
        else plan.fallback_reason;
  }

  -- The plan before the contexts are chosen.
  unfoldable pub plan_before_contexts :
      {D : Type 0}
      → Doubles F D
      → VideoProfile D
      → Option (HardwareProfile D)
      → Option InferenceBatchCapability
      → PipelineExecutionPlan
  unfolding estimate_per_frame_gpu_bytes vram_budget budget_or_default best_batch planned_inflight
      backend_batch
  plan_before_contexts c video hardware capability =
      let per_frame = estimate_per_frame_gpu_bytes video capability in
      let budget = budget_or_default (vram_budget c config hardware) per_frame in
      let best = best_batch c budget per_frame config video hardware in
      let started = record (set_flags video hardware capability) { vram_budget_bytes = budget } in
      let batched = set_batches per_frame best capability (set_reason best started) in
      set_overlap (set_sizes per_frame video capability batched)

  unfoldable pub pipeline_execution_plan_build :
      {D : Type 0}
      → Doubles F D
      → VideoProfile D
      → Option (HardwareProfile D)
      → Option InferenceBatchCapability
      → PipelineExecutionPlan
  unfolding plan_before_contexts set_contexts
  pipeline_execution_plan_build c video hardware capability = set_mode (
      set_unsupported
        (set_contexts hardware capability (plan_before_contexts c video hardware capability)))
