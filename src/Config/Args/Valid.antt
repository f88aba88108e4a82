-- ===== src/Config/Args/Valid.antt =====
-- pipeline/pipeline_config.c: every option of pipeline_config_parse_args keeps the configuration within
-- the ranges that its messages name.
pub mod Paths
pub mod Counts
use Prim.Native.String.{String}
use text.Mathlib.Text.{◌==◌}
use video_compute_pipeline.Prelude.{
  ℕ, ◌≡◌, refl, Bool, true, false, not, ◌||◌, Option, none, some, List, if_ind, if_cases, arith,
  if◌then◌else◌,
}
use video_compute_pipeline.Prelude.Text.{codes}
use video_compute_pipeline.Prelude.Int.{ℤ, pos, negsuc, is_pos, is_neg, eq_ℤ}
use video_compute_pipeline.Backend.{
  InferenceRuntime, runtime_auto, runtime_eq, inference_runtime_parse, inference_runtime_to_string,
}
use video_compute_pipeline.Backend.{backend_device_parse, model_type_parse}
use video_compute_pipeline.Config.Names.{
  parse_mode, parse_task, parse_filter, parse_output_format, parse_memory_profile,
  parse_decoder_mode, parse_decoder_fallback, parse_feature_mode, parse_ffmpeg_log_level,
  fallback_none,
}
use video_compute_pipeline.Config.ClassFilter.{
  parse_int_value, parse_class_id_list, parse_class_name_list,
}
use video_compute_pipeline.Config.ClassFilter.Distinct.{IsFilter, parse_class_id_list-IsFilter}
use video_compute_pipeline.Config.Settings.{PipelineConfig}
use video_compute_pipeline.Config.Args.{
  Platform, Step, parse_float_value, parse_batch_setting, square_size, outside_unit, outside_ratio,
  set_backend, set_runtime,
}
use video_compute_pipeline.Config.Args.Words.{
  IsPrecision, IsEncoder, IsLogLevel, known_precision-IsPrecision, known_encoder-IsEncoder,
  parse_ffmpeg_log_level-IsLogLevel, May, Keeps, require_value_lem, or_else_lem, set_to_lem,
  set_checked_lem, set_list_lem, set_text_lem, passes_test, parse_batch_setting_lem,
}

pub square_of_side : (n : ℤ) → n ≡ square_size n n
square_of_side (pos n) = ground arith
square_of_side (negsuc n) = ground arith

module _ {F : Type 0} (c : Platform F) where
  -- The number of frames is not negative, and there is a slot, a worker and a thread of each kind.
  abbrev AreCounts : PipelineConfig F → Type 0
  AreCounts config =
      (is_neg config.max_frames ≡ false)
      × (is_pos config.frame_slots ≡ true)
      × (is_pos config.decoder_threads ≡ true)
      × (is_pos config.encoder_threads ≡ true)
      × (is_pos config.processor_workers ≡ true)

  abbrev AreSizes : PipelineConfig F → Type 0
  AreSizes config =
      (is_neg config.memory_budget_mb ≡ false)
      × (is_neg config.progress_interval ≡ false)
      × (is_neg config.vram_reserve_mb ≡ false)
      × (is_pos config.box_thickness ≡ true)

  -- The sides of the input are positive, and its size is the side of a square, else 0.
  abbrev IsInput : PipelineConfig F → Type 0
  IsInput config =
      (is_pos config.inference_input_width ≡ true)
      × (is_pos config.inference_input_height ≡ true)
      × (config.inference_input_size
          ≡ square_size config.inference_input_width config.inference_input_height)

  abbrev AreBatches : PipelineConfig F → Type 0
  AreBatches config =
      (is_pos config.batch_size ≡ true)
      × (is_pos config.inflight_batches ≡ true)
      × (is_pos config.inference_contexts ≡ true)

  -- Neither below 0 nor above 1: a number from 0 to 1, or a NaN.
  abbrev pub InUnit : F → Type 0
  InUnit x = (c.less x (c.thousandths 0) ≡ false) × (c.less (c.thousandths 1000) x ≡ false)

  -- Neither 0 or less nor above 1: a positive number up to 1, or a NaN.
  abbrev pub InRatio : F → Type 0
  InRatio x = (c.less_eq x (c.thousandths 0) ≡ false) × (c.less (c.thousandths 1000) x ≡ false)

  pub in_unit : (x : F) → outside_unit c x ≡ false → InUnit x
  in_unit x e = ground (arith, e)

  pub in_ratio : (x : F) → outside_ratio c x ≡ false → InRatio x
  in_ratio x e = ground (arith, e)

  -- The thresholds are from 0 to 1, the rate is not negative and the ratio is above 0.
  abbrev AreThresholds : PipelineConfig F → Type 0
  AreThresholds config =
      InUnit config.confidence_threshold
      × InUnit config.iou_threshold
      × InUnit config.box_confidence
      × (c.less config.target_fps (c.thousandths 0) ≡ false)
      × InRatio config.vram_budget_ratio

  abbrev AreWords : PipelineConfig F → Type 0
  AreWords config =
      IsPrecision config.inference_precision
      × IsEncoder config.encoder_name
      × IsLogLevel config.ffmpeg_log_level

  abbrev pub IsConfig : PipelineConfig F → Type 0
  IsConfig config =
      AreCounts config
      × AreSizes config
      × IsInput config
      × AreBatches config
      × AreThresholds config
      × AreWords config
      × IsFilter config.class_filter_ids

  abbrev K : PipelineConfig F → Type 0
  K = IsConfig

  pub set_backend_lem :
      (config : PipelineConfig F) (value : String)
      → IsConfig config
      → (o : Option InferenceRuntime) → May K (set_backend config value o)
  unfolding set_backend
  set_backend_lem config value v none = tt
  set_backend_lem config value v (some r) =
      if_ind (May K) (runtime_eq r runtime_auto) tt
        (set_text_lem K _ value (λ t. record config { runtime = r; inference_backend = t }) v)

  pub set_runtime_lem :
      (config : PipelineConfig F)
      → IsConfig config
      → (o : Option InferenceRuntime) → May K (set_runtime config o)
  unfolding set_runtime
  set_runtime_lem config v none = tt
  set_runtime_lem config v (some r) =
      set_text_lem K _ (inference_runtime_to_string r)
        (λ t. record config { runtime = r; inference_backend = t }) v
