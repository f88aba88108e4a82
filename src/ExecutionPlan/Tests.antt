-- ===== src/ExecutionPlan/Tests.antt =====
-- Runs of pipeline/pipeline_execution_plan.c and pipeline/video_profile.c.
use video_compute_pipeline.Prelude.{ℕ, ◌+◌, ◌*◌, ◌/◌, ◌≡◌, refl, true, false, some, ltb, leb, arith}
use video_compute_pipeline.Prelude.Int.{pos}
use video_compute_pipeline.Frame.{nv12, calculate_size}
use video_compute_pipeline.Config.Names.{feature_on}
use video_compute_pipeline.Config.Settings.{PipelineConfig, batch_auto, pipeline_config_default}
use video_compute_pipeline.ExecutionPlan.{candidate_fits_transfer_budget, is_manual, mega}
use video_compute_pipeline.ExecutionPlan.Profile.{
  Doubles, VideoInfo, VideoProfile, HardwareProfile, InferenceBatchCapability,
  video_profile_from_info,
}
use video_compute_pipeline.ExecutionPlan.Build.{pipeline_execution_plan_build}
use video_compute_pipeline.ExecutionPlan.Fits.{frame_need}
use video_compute_pipeline.ExecutionPlan.Batch.{Tuned, pipeline_execution_plan_build-Tuned}
use video_compute_pipeline.ExecutionPlan.Lanes.{IsPlan, pipeline_execution_plan_build-IsPlan}
use video_compute_pipeline.ExecutionPlan.Bytes.{video_profile_from_info_lem}

-- Doubles that are hundredths, and floats that are thousandths.
abbrev doubles : Doubles ℕ ℕ
doubles = record {
  float_zero = 0;
  float_less = ltb;
  widen = λ x. x / 10;
  hundredths = λ n. n;
  of_int = λ n. n * 100;
  of_size = λ n. n * 100;
  to_size = λ x. x / 100;
  add = λ x y. x + y;
  mul = λ x y. x * y / 100;
  div = λ x y. x * 100 / y;
  less = ltb;
  less_eq = leb;
}

abbrev clip : VideoProfile ℕ
clip = record {
  width = pos 1920;
  height = pos 1080;
  fps = 3000;
  total_frames = pos 100;
  duration_sec = 333;
  working_format = nv12;
  frame_bytes = 3110400;
  requires_raw_upload = true;
  requires_raw_download = false;
}

abbrev card : HardwareProfile ℕ
card = record {
  gpu_name = "card";
  cuda_device_id = pos 0;
  compute_major = pos 8;
  compute_minor = pos 6;
  total_vram_bytes = 4096 * mega;
  free_vram_before_engine_bytes = 4000 * mega;
  free_vram_after_engine_bytes = 900 * mega;
  estimated_engine_bytes = 3100 * mega;
  async_engine_count = pos 2;
  concurrent_kernels = true;
  can_map_host_memory = true;
  unified_addressing = true;
  h2d_pinned_gbps = 1200;
  d2h_pinned_gbps = 1200;
  cuda_available = true;
}

abbrev capability : InferenceBatchCapability
capability = record {
  min_batch_size = pos 1;
  max_batch_size = pos 1;
  supports_dynamic_batch = false;
  supports_true_batching = false;
  supports_parallel_contexts = true;
  max_parallel_contexts = pos 3;
  selected_context_count = pos 1;
  input_width = pos 640;
  input_height = pos 640;
  input_bytes_per_frame = 4915200;
  output_bytes_per_frame = 8568000;
  description = "engine";
}

abbrev tuned : PipelineConfig ℕ
tuned = record (pipeline_config_default (λ n. n)) {
  batch_size_mode = batch_auto;
  inflight_batches_mode = batch_auto;
  enable_auto_tune = true;
  parallel_inference_mode = feature_on;
}

abbrev by_hand : PipelineConfig ℕ
by_hand = record (pipeline_config_default (λ n. n)) { batch_size = pos 2; inflight_batches = pos 2 }

abbrev info : VideoInfo ℕ
info = record {
  width = pos 1920;
  height = pos 1080;
  fps = 3000;
  total_frames = pos 100;
  duration_sec = 333;
}

two_contexts :
    (pipeline_execution_plan_build by_hand doubles clip
      (some card)
      (some capability)).inference_context_count
    ≡ 2
unfolding pipeline_execution_plan_build pipeline_config_default
two_contexts = refl

frames_in_flight :
    (pipeline_execution_plan_build by_hand doubles clip (some card) (some capability)).batch_size
      * (pipeline_execution_plan_build by_hand doubles clip
          (some card)
          (some capability)).inflight_batches
    ≡ 4
unfolding pipeline_execution_plan_build pipeline_config_default
frames_in_flight = refl

pipeline_execution_plan_build-IsPlan_example :
    IsPlan (pipeline_execution_plan_build by_hand doubles clip (some card) (some capability)) 4
pipeline_execution_plan_build-IsPlan_example =
    pipeline_execution_plan_build-IsPlan doubles by_hand clip (some card) (some capability) 4
      frames_in_flight (omega arith)

tuned_batch :
    (pipeline_execution_plan_build tuned doubles clip (some card) (some capability)).batch_size ≡ 3
unfolding pipeline_execution_plan_build pipeline_config_default candidate_fits_transfer_budget
tuned_batch = refl

is_tuned : tuned.enable_auto_tune ≡ true
unfolding pipeline_config_default
is_tuned = refl

not_manual : is_manual tuned.batch_size_mode ≡ false
unfolding pipeline_config_default
not_manual = refl

pipeline_execution_plan_build-Tuned_example :
    Tuned doubles tuned clip
      (some card)
      (pipeline_execution_plan_build tuned doubles clip (some card) (some capability)).batch_size
      (pipeline_execution_plan_build tuned doubles clip
        (some card)
        (some capability)).vram_budget_bytes
      (frame_need clip (some capability))
pipeline_execution_plan_build-Tuned_example =
    pipeline_execution_plan_build-Tuned doubles tuned clip (some card) (some capability)
      (omega arith) not_manual is_tuned

video_profile_from_info_lem_example :
    (profile : VideoProfile ℕ) × (video_profile_from_info info nv12 true false ≡ some profile)
    × (profile.frame_bytes ≡ 1920 * 1080 + 1920 * 1080 / 2)
    × (profile.frame_bytes ≡ calculate_size (pos 1920) (pos 1080) nv12)
video_profile_from_info_lem_example =
    video_profile_from_info_lem info nv12 true false 1920 1080 refl refl (omega arith) (omega arith)
      (omega arith) (omega arith) (refl, refl)
