-- ===== src/ExecutionPlan.antt =====
-- pipeline/pipeline_execution_plan.c: the plan of a detection run, from the configuration, the video,
-- the hardware and the inference engine's capability. The hardware and the capability may be missing;
-- the other pointers exist. A size is a size_t, which wraps at 2 ^ 64. `best` may be any int; a count
-- of frames that the code has clamped to 1 or more is a natural number.
pub mod Profile
pub mod Build
pub mod Fits
pub mod Batch
pub mod Bytes
pub mod Lanes
pub mod Tests
use Prim.Native.String.{String}
use video_compute_pipeline.Prelude.{
  ℕ, ◌+◌, ◌-◌, ◌*◌, ◌/◌, ◌%◌, ◌^◌, Bool, true, false, not, ◌&&◌, ◌||◌, Option, none, some, List, [],
  ◌∷◌, ltb, leb, ◌==◌, if◌then◌else◌,
}
use video_compute_pipeline.Prelude.Int.{ℤ, pos, negsuc, pos_part, is_pos, ltb_ℤ}
use video_compute_pipeline.Config.Names.{
  VideoDecoderMode, decoder_cpu, decoder_nvdec, PipelineFeatureMode, feature_auto, feature_on,
  feature_off,
}
use video_compute_pipeline.Config.Settings.{
  PipelineConfig, BatchSettingMode, batch_auto, batch_manual,
}
use video_compute_pipeline.ExecutionPlan.Profile.{
  Doubles, VideoProfile, HardwareProfile, InferenceBatchCapability, wrap, wrap_int, size_mul,
}

pub record PipelineExecutionPlan : Type 0 where
  pub execution_mode : ℕ
  pub batch_size : ℕ
  pub schedule_batch_size : ℕ
  pub backend_batch_size : ℕ
  pub inflight_batches : ℕ
  pub total_active_frames : ℤ
  pub active_frame_capacity : ℤ
  pub frames_per_upload_batch : ℕ
  pub frames_per_download_batch : ℕ
  pub vram_budget_bytes : ℕ
  pub estimated_batch_bytes : ℕ
  pub unused_vram_budget_bytes : ℕ
  pub use_pinned_memory : Bool
  pub use_contiguous_batch_buffers : Bool
  pub use_async_copies : Bool
  pub supports_true_backend_batching : Bool
  pub true_backend_batching_enabled : Bool
  pub transfer_batching_enabled : Bool
  pub pipeline_overlap_enabled : Bool
  pub parallel_inference_enabled : Bool
  pub inference_context_count : ℕ
  pub inference_lane_count : ℕ
  pub inference_serialized : Bool
  pub pinned_host_batch_bytes : ℕ
  pub device_raw_batch_bytes : ℕ
  pub device_output_batch_bytes : ℕ
  pub prefer_gpu_resident_path : Bool
  pub allow_full_frame_download : Bool
  pub fallback_reason : String

abbrev max_size : ℕ → ℕ → ℕ
max_size a b = if ltb b a then a else b

abbrev pub min_size : ℕ → ℕ → ℕ
min_size a b = if ltb a b then a else b

-- 1 MB.
abbrev pub mega : ℕ
mega = 1024 * 1024

abbrev pub pipeline_execution_plan_init : PipelineExecutionPlan
pipeline_execution_plan_init = record {
  execution_mode = 0;
  batch_size = 1;
  schedule_batch_size = 1;
  backend_batch_size = 1;
  inflight_batches = 1;
  total_active_frames = pos 1;
  active_frame_capacity = pos 1;
  frames_per_upload_batch = 0;
  frames_per_download_batch = 0;
  vram_budget_bytes = 0;
  estimated_batch_bytes = 0;
  unused_vram_budget_bytes = 0;
  use_pinned_memory = false;
  use_contiguous_batch_buffers = false;
  use_async_copies = false;
  supports_true_backend_batching = false;
  true_backend_batching_enabled = false;
  transfer_batching_enabled = false;
  pipeline_overlap_enabled = false;
  parallel_inference_enabled = false;
  inference_context_count = 1;
  inference_lane_count = 1;
  inference_serialized = true;
  pinned_host_batch_bytes = 0;
  device_raw_batch_bytes = 0;
  device_output_batch_bytes = 0;
  prefer_gpu_resident_path = false;
  allow_full_frame_download = false;
  fallback_reason = "default single-frame execution";
}

abbrev pub is_nvdec : VideoDecoderMode → Bool
is_nvdec decoder_cpu = false
is_nvdec decoder_nvdec = true

abbrev pub is_manual : BatchSettingMode → Bool
is_manual batch_auto = false
is_manual batch_manual = true

abbrev pub is_on : PipelineFeatureMode → Bool
is_on feature_auto = false
is_on feature_on = true
is_on feature_off = false

abbrev pub is_auto : PipelineFeatureMode → Bool
is_auto feature_auto = true
is_auto feature_on = false
is_auto feature_off = false

abbrev pub one_if : Bool → ℕ
one_if true = 1
one_if false = 0

-- An int that is clamped to 1 or more.
abbrev pub at_least_one : ℤ → ℕ
at_least_one n = if ltb_ℤ n (pos 1) then 1 else pos_part n

-- The batch sizes that auto-tuning tries.
abbrev pub candidates : List ℕ
candidates = 1 ∷ 2 ∷ 3 ∷ 4 ∷ 6 ∷ 8 ∷ []

-- The loop over the candidates: the last one that fits.
unfoldable pub last_fitting : (ℕ → Bool) → List ℕ → ℕ → ℕ
last_fitting fits [] best = best
last_fitting fits (candidate ∷ rest) best =
    last_fitting fits rest (if fits candidate then candidate else best)

-- The bytes of a batch of that many frames.
unfoldable pub estimate_batch : ℕ → ℕ → ℕ
estimate_batch per_frame count = wrap (size_mul per_frame count + 16 * mega)

-- Two frames where the hardware gives no budget.
unfoldable pub budget_or_default : ℕ → ℕ → ℕ
budget_or_default budget per_frame = if budget == 0 then size_mul per_frame 2 else budget

module _ {D : Type 0} where
  unfoldable pub estimate_per_frame_gpu_bytes : VideoProfile D → Option InferenceBatchCapability → ℕ
  estimate_per_frame_gpu_bytes video none =
      wrap (video.frame_bytes + max_size (video.frame_bytes / 4) (4 * mega))
  estimate_per_frame_gpu_bytes video (some capability) = wrap (
      video.frame_bytes
      + (capability.input_bytes_per_frame
          + (capability.output_bytes_per_frame + max_size (video.frame_bytes / 4) (4 * mega))))

module _ {F D : Type 0} (c : Doubles F D) where
  -- The time of one transfer direction in ms, of `bytes` at `gbps`.
  unfoldable pub transfer_time : D → ℕ → ℕ → D
  transfer_time gbps bytes candidate =
      let usable = c.mul gbps (c.hundredths 70) in
      let bytes = c.mul (c.of_size bytes) (c.of_int candidate) in
      c.add (c.mul (c.div bytes (c.mul usable (c.hundredths 100000000000))) (c.hundredths 100000))
        (c.hundredths 5)

  -- The frames per second that the transfers are to keep up with.
  unfoldable pub planned_fps : PipelineConfig F → VideoProfile D → D
  planned_fps config video =
      if c.float_less (c.float_zero) config.target_fps
      then c.widen config.target_fps
      else if c.less (c.hundredths 0) video.fps
      then video.fps
      else c.hundredths 3000

  unfoldable pub fits_transfer : ℕ → PipelineConfig F → VideoProfile D → HardwareProfile D → Bool
  unfolding transfer_time planned_fps
  fits_transfer candidate config video hardware =
      let batch_time_budget_ms =
        c.mul (c.div (c.hundredths 100000) (planned_fps config video)) (c.of_int candidate) in
      let transfer_budget_ms = c.mul batch_time_budget_ms (c.hundredths 25) in
      let uploaded =
        (if video.requires_raw_upload
          then c.add (c.hundredths 0)
              (transfer_time hardware.h2d_pinned_gbps video.frame_bytes candidate)
          else c.hundredths 0) in
      let transfer_ms =
        (if video.requires_raw_download
          then c.add uploaded (transfer_time hardware.d2h_pinned_gbps video.frame_bytes candidate)
          else uploaded) in
      if c.less_eq hardware.h2d_pinned_gbps (c.hundredths 0)
        || c.less_eq hardware.d2h_pinned_gbps (c.hundredths 0)
      then true
      else c.less_eq transfer_ms transfer_budget_ms

  unfoldable pub candidate_fits_transfer_budget :
      ℕ → PipelineConfig F → VideoProfile D → Option (HardwareProfile D) → Bool
  unfolding fits_transfer
  candidate_fits_transfer_budget candidate config video none = true
  candidate_fits_transfer_budget candidate config video (some hardware) =
      fits_transfer candidate config video hardware

  unfoldable pub reserve_of : PipelineConfig F → HardwareProfile D → ℕ
  reserve_of config hardware =
      if is_pos config.vram_reserve_mb
      then wrap (pos_part config.vram_reserve_mb * mega)
      else max_size (512 * mega)
          (c.to_size (c.mul (c.of_size hardware.total_vram_bytes) (c.hundredths 20)))

  -- The budget that the hardware gives, or 0.
  unfoldable pub vram_budget : PipelineConfig F → Option (HardwareProfile D) → ℕ
  unfolding reserve_of
  vram_budget config none = 0
  vram_budget config (some hardware) =
      let reserve = reserve_of config hardware in
      if hardware.cuda_available && ltb 0 hardware.total_vram_bytes
      then min_size
          (c.to_size
            (c.mul (c.of_size hardware.total_vram_bytes) (c.widen config.vram_budget_ratio)))
          (if ltb reserve hardware.free_vram_after_engine_bytes
            then hardware.free_vram_after_engine_bytes - reserve
            else 0)
      else 0

  -- The test of the loop over the candidates.
  unfoldable pub candidate_fits :
      ℕ → ℕ → PipelineConfig F → VideoProfile D → Option (HardwareProfile D) → ℕ → Bool
  unfolding estimate_batch
  candidate_fits budget per_frame config video hardware candidate =
      if ltb budget (estimate_batch per_frame candidate)
      then false
      else candidate_fits_transfer_budget candidate config video hardware

  unfoldable pub best_batch :
      ℕ → ℕ → PipelineConfig F → VideoProfile D → Option (HardwareProfile D) → ℤ
  unfolding last_fitting candidate_fits
  best_batch budget per_frame config video hardware =
      if is_manual config.batch_size_mode
      then config.batch_size
      else if config.enable_auto_tune
      then pos (last_fitting (candidate_fits budget per_frame config video hardware) candidates 1)
      else pos 1
